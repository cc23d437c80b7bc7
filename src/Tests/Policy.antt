-- ===== src/Tests/Policy.antt =====
-- The gate on one reply that goes out and on one that is rejected.
use insurnace_automations.Base.{ℕ, String, some, false, [], ◌∷◌, codes, ◌≡◌, ◌↔◌}
use insurnace_automations.Core.Types.{sms, granted}
use insurnace_automations.Core.Policy.{
  PolicyContext, ProposedAction, pricing_guidance, send_now, allowed, evaluate_policy,
}
use insurnace_automations.Core.Policy.Laws.{allowed_iff, MayGoOut}

-- Every zone is at noon.
abbrev noon : String → ℕ → ℕ
noon zone instant = 12

abbrev ctx : PolicyContext
ctx = record {
  channel = sms;
  consent = record { channel = sms; status = granted };
  is_suppressed = false;
  quiet_hours = record { start_hour = 8; end_hour = 21; timezone = "America/Chicago" };
  now = 0;
  follow_ups_sent_in_window = 0;
  follow_up_cap = 5;
  delivery_lockout = false;
  approved_knowledge = record { id = "k1"; type = pricing_guidance } ∷ [];
}

abbrev priced : ProposedAction
priced = record {
  action = "send_reply";
  reply_text = some (codes "A repair costs about $250.");
  knowledge_refs = some ("k1" ∷ []);
}

allowed_iff_example :
    (evaluate_policy noon ctx priced ≡ allowed (some send_now))
    ↔ MayGoOut noon ctx priced (some send_now)
allowed_iff_example = allowed_iff noon ctx priced (some send_now)
