-- ===== src/Api/Signing.antt =====
-- apps/api/src/signing.ts: the signature of a webhook. `hmac secret text` is the hexadecimal HMAC-SHA256 of
-- node:crypto, and `number` the value of a timestamp that Number() reads as a finite whole number.
use insurnace_automations.Base.{
  ℕ, ◌+◌, ◌≤◌, String, ◌+++◌, false, ◌||◌, Option, none, some, str_eq, eq_iff, ltb, arith,
  if◌then◌else◌, ◌≡◌, refl, Bool-cases, inl, inr,
}
use insurnace_automations.Base.Int.{ℤ, pos, ◌-ℤ◌, pos_part, neg_part}

pub data VerifyResult : Type 0 where
  ok missing stale mismatch : VerifyResult

-- `Math.abs(z)`
abbrev pub abs : ℤ → ℕ
abs z = pos_part z + neg_part z

abbrev max_skew_ms : ℕ
max_skew_ms = 300000

abbrev or_empty : Option String → String
or_empty none = ""
or_empty (some s) = s

module _ (hmac : String → String → String) (number : String → Option ℤ) where
  unfoldable pub sign : String → String → String → String
  sign secret timestamp raw_body = hmac secret (timestamp +++ "." +++ raw_body)

  -- The comparison of the digests, whose lengths are compared first.
  unfoldable pub check_digest : String → String → VerifyResult
  check_digest expected signature = if str_eq expected signature then ok else mismatch

  unfoldable pub check_time : ℕ → Option ℤ → VerifyResult → VerifyResult
  unfolding ◌-ℤ◌
  check_time now none later = stale
  check_time now (some ts) later = if ltb max_skew_ms (abs (pos now -ℤ ts)) then stale else later

  -- A missing header counts as an empty one.
  unfoldable pub verify_signature :
      String → Option String → Option String → String → ℕ → VerifyResult
  unfolding sign check_digest check_time
  verify_signature secret timestamp signature raw_body now =
      let t = or_empty timestamp in
      let s = or_empty signature in
      if str_eq t "" || str_eq s ""
      then missing
      else check_time now (number t) (check_digest (sign secret t raw_body) s)

  -- What a signature that is accepted proves.
  pub record IsSigned (secret : String) (timestamp signature : Option String) (raw_body : String)
      (now : ℕ) : Type 0 where
    pub time : String
    pub stamped : timestamp ≡ some time
    pub signed : signature ≡ some (hmac secret (time +++ "." +++ raw_body))
    pub instant : ℤ
    pub read : number time ≡ some instant
    pub fresh : abs (pos now -ℤ instant) ≤ 300000

  le_of_ltb : (a b : ℕ) → ltb a b ≡ false → b ≤ a
  le_of_ltb a b h = ground arith

  check_time-ok :
      (now : ℕ) (ts : Option ℤ) (later : VerifyResult)
      → check_time now ts later ≡ ok
      → (z : ℤ) × (ts ≡ some z) × (abs (pos now -ℤ z) ≤ 300000) × (later ≡ ok)
  unfolding check_time
  check_time-ok now none later h = cc
  check_time-ok now (some z) later h = elim (Bool-cases (ltb max_skew_ms (abs (pos now -ℤ z)))) [
    | inl late ↦ cc (rw late at h)
    | inr timely ↦ (z, refl, le_of_ltb max_skew_ms _ timely, rw timely at h)
  ]

  given : (o : Option String) → str_eq (or_empty o) "" ≡ false → o ≡ some (or_empty o)
  given none h = cc
  given (some s) h = refl

  check_digest-ok :
      (expected signature : String) → check_digest expected signature ≡ ok → signature ≡ expected
  unfolding check_digest
  check_digest-ok expected signature h = ground (arith, eq_iff expected signature)

  -- A request that is accepted carries a timestamp that is within five minutes of the clock, on either
  -- side, and the digest of that timestamp and the exact body under the source's secret.
  pub verify-IsSigned :
      (secret : String) (timestamp signature : Option String) (raw_body : String) (now : ℕ)
      → verify_signature secret timestamp signature raw_body now ≡ ok
      → IsSigned secret timestamp signature raw_body now
  unfolding verify_signature sign
  verify-IsSigned secret timestamp signature raw_body now h =
      let t = or_empty timestamp in
      let s = or_empty signature in
      elim (Bool-cases (str_eq t "")) [
        | inl bare ↦ cc (rw bare at h)
        | inr stamped ↦ elim (Bool-cases (str_eq s "")) [
          | inl bare ↦ cc (rw (stamped, bare) at h)
          | inr signed ↦
              let (z, reads, fresh, matches) =
                check_time-ok now (number t) _ (rw (stamped, signed) at h) in
              record {
                time = t;
                stamped = given timestamp stamped;
                signed = rw (← check_digest-ok _ _ matches) (given signature signed);
                instant = z;
                read = reads;
                fresh = fresh;
              }
        ]
      ]
