-- ===== src/Relay/Api/Bounds.antt =====
-- What the requests of api/bot_relay.go can bring into the table of the relays.
use save_any_bot.Prelude.{
  Checked, ok, refused, and_then, ℕ, ◌≤◌, ◌≡◌, refl, subst, ◌||◌, String, ltb, arith, Bool-cases,
  inl, inr,
}
use save_any_bot.Relay.Store.{BotRelay}
use save_any_bot.Relay.Api.{
  ℤ, pos, negsuc, BotRelayRequest, in_range, Lookup, check_owner, check_quiet, check_userbot,
  resolved, resolve_bot_relay, with_defaults,
}

-- The times of a relay are inside their limits.
pub record IsValid (r : BotRelay) : Type 0 where
  pub timeout : (1 ≤ r.timeout_seconds) × (r.timeout_seconds ≤ 86400)
  pub quiet :
      (1 ≤ r.quiet_seconds) × (r.quiet_seconds ≤ 300) × (r.quiet_seconds ≤ r.timeout_seconds)
  pub interval : (1 ≤ r.scan_interval_minutes) × (r.scan_interval_minutes ≤ 1440)

-- What holds of what a check lets through.
unfoldable pub Holds {ℓ κ} : {A : Type ℓ} → (A → Type κ) → Checked A → Type κ
Holds P (ok a) = P a
Holds P (refused e) = Unit

and_then-Holds {ℓ κ μ} :
    {A B : Type ℓ} (P : A → Type κ) (Q : B → Type μ) (c : Checked A) (f : A → Checked B)
    → Holds P c
    → ((a : A) → P a → Holds Q (f a))
    → Holds Q (and_then c f)
unfolding Holds and_then
and_then-Holds P Q (ok a) f h g = g a h
and_then-Holds P Q (refused e) f h g = tt

abbrev Anything {ℓ} : {A : Type ℓ} → A → Type 0
Anything a = Unit

all_Holds {ℓ} : {A : Type ℓ} (c : Checked A) → Holds Anything c
unfolding Holds
all_Holds (ok a) = tt
all_Holds (refused e) = tt

in_range-Holds :
    (e : String) (top : ℕ) (z : ℤ) → Holds (λ n. (1 ≤ n) × (n ≤ top)) (in_range e top z)
unfolding Holds in_range
in_range-Holds e top (negsuc n) = tt
in_range-Holds e top (pos n) = elim (Bool-cases (ltb n 1 || ltb top n)) [
  | inl q ↦ rw (q, Holds) tt
  | inr q ↦ rw (q, Holds) (ground (arith, q), ground (arith, q))
]

check_quiet-Holds : (q t : ℕ) → Holds (λ n. (n ≡ q) × (n ≤ t)) (check_quiet q t)
unfolding Holds check_quiet
check_quiet-Holds q t = elim (Bool-cases (ltb t q)) [
  | inl e ↦ rw (e, Holds) tt
  | inr e ↦ rw (e, Holds) (refl, ground (arith, e))
]

pub resolve-Holds : (l : Lookup) (req : BotRelayRequest) → Holds IsValid (resolve_bot_relay l req)
unfolding resolve_bot_relay resolved Holds
resolve-Holds l req =
    and_then-Holds Anything IsValid _ _ (all_Holds (check_owner l req.user_id)) λ owner u.
      and_then-Holds (λ n. (1 ≤ n) × (n ≤ 86400)) IsValid _ _
        (in_range-Holds _ 86400 req.timeout_seconds)
        λ t ht.
          and_then-Holds (λ n. (1 ≤ n) × (n ≤ 300)) IsValid _ _
            (in_range-Holds _ 300 req.quiet_seconds)
            λ q hq.
              and_then-Holds (λ n. (n ≡ q) × (n ≤ t)) IsValid _ _ (check_quiet-Holds q t)
                λ quiet hn.
                  and_then-Holds (λ n. (1 ≤ n) × (n ≤ 1440)) IsValid _ _
                    (in_range-Holds _ 1440 req.scan_interval_minutes)
                    λ i hi.
                      and_then-Holds Anything IsValid _ _ (all_Holds (check_userbot l)) λ b ub.
                        and_then-Holds Anything IsValid _ _ (all_Holds (l.channel req.source_chat))
                          λ s us.
                            and_then-Holds Anything IsValid _ _ (all_Holds (l.bot req.target_bot))
                              λ g ug. record { timeout = ht; quiet = omega arith; interval = hi }

-- A request that is accepted gives a relay whose times are inside their limits: the timeout is 1 to
-- 86400 seconds, the quiet time 1 to 300 seconds and no longer than the timeout, the interval 1 to
-- 1440 minutes.
pub resolve_bot_relay-IsValid :
    (l : Lookup) (req : BotRelayRequest) (relay : BotRelay)
    → resolve_bot_relay l (with_defaults req) ≡ ok relay
    → IsValid relay
unfolding Holds
resolve_bot_relay-IsValid l req relay e =
    subst (Holds IsValid) e (resolve-Holds l (with_defaults req))
