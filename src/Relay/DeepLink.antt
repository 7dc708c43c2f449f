-- ===== src/Relay/DeepLink.antt =====
-- `relayPayloads` of client/bot/handlers/bot_relay.go: the payloads of the links of a message. The links are found and
-- taken apart by functions on text that are parameters.
use save_any_bot.Prelude.{
  ◌≡◌, refl, Bool, true, false, String, Option, none, some, List, [], ◌∷◌, ◌++◌, str_eq, str_eq_iff,
  str_eq_refl, arith, Bool-cases, inl, inr, if◌then◌else◌,
}

unfoldable pub is_listed : String → List String → Bool
is_listed p [] = false
is_listed p (q ∷ qs) = let rest = is_listed p qs in if str_eq q p then true else rest

unfoldable pub add_payload : Option String → List String → List String
unfolding is_listed
add_payload none ps = ps
add_payload (some p) ps = if is_listed p ps then ps else ps ++ p ∷ []

unfoldable pub payloads_from : (String → Option String) → List String → List String → List String
unfolding add_payload
payloads_from parse ps [] = ps
payloads_from parse ps (u ∷ us) = payloads_from parse (add_payload (parse u) ps) us

-- The links of the entities first, then those of the text.
unfoldable pub relay_payloads : (String → Option String) → List String → List String → List String
unfolding payloads_from
relay_payloads parse entity_urls text_urls = payloads_from parse [] (entity_urls ++ text_urls)

abbrev pub NoDuplicates : List String → Type 0
NoDuplicates [] = Unit
NoDuplicates (p ∷ ps) = (is_listed p ps ≡ false) × NoDuplicates ps

is_listed-append :
    (p : String) (xs ys : List String)
    → is_listed p (xs ++ ys) ≡ (if is_listed p xs then true else is_listed p ys)
unfolding is_listed
is_listed-append p [] ys = refl
is_listed-append p (x ∷ xs) ys = ground (arith, is_listed-append p xs ys)

NoDuplicates-append :
    (ps : List String) (p : String)
    → NoDuplicates ps
    → is_listed p ps ≡ false
    → NoDuplicates (ps ++ p ∷ [])
unfolding is_listed
NoDuplicates-append [] p h n = (refl, tt)
NoDuplicates-append (q ∷ qs) p h n = elim (Bool-cases (str_eq p q)) [
  | inl e ↦ absurd (ground (arith, n, (str_eq_iff p q).0 e, str_eq_refl q))
  | inr e ↦ (
    ground (arith, is_listed-append q qs (p ∷ []), h.0, e),
    NoDuplicates-append qs p h.1 (ground (arith, n)),
  )
]

add_payload-NoDuplicates :
    (o : Option String) (ps : List String) → NoDuplicates ps → NoDuplicates (add_payload o ps)
unfolding add_payload
add_payload-NoDuplicates none ps h = h
add_payload-NoDuplicates (some p) ps h = elim (Bool-cases (is_listed p ps)) [
  | inl e ↦ rw e h
  | inr e ↦ rw e (NoDuplicates-append ps p h e)
]

payloads_from-NoDuplicates :
    (parse : String → Option String) (ps us : List String)
    → NoDuplicates ps
    → NoDuplicates (payloads_from parse ps us)
unfolding payloads_from
payloads_from-NoDuplicates parse ps [] h = h
payloads_from-NoDuplicates parse ps (u ∷ us) h =
    payloads_from-NoDuplicates parse (add_payload (parse u) ps) us
      (add_payload-NoDuplicates (parse u) ps h)

-- Some link gives the payload.
unfoldable pub is_given : (String → Option String) → String → List String → Bool
is_given parse p [] = false
is_given parse p (u ∷ us) =
    let rest = is_given parse p us in
    elim (parse u) [ none ↦ rest | some q ↦ if str_eq q p then true else rest ]

add_payload-is_listed :
    (o : Option String) (ps : List String) (p : String)
    → is_listed p (add_payload o ps)
      ≡ (if is_listed p ps then true else elim o [ none ↦ false | some q ↦ str_eq q p ])
unfolding add_payload is_listed
add_payload-is_listed none ps p = ground arith
add_payload-is_listed (some q) ps p = elim (Bool-cases (str_eq q p)) [
  | inl e ↦ ground (arith, is_listed-append p ps (q ∷ []), (str_eq_iff q p).0 e, e)
  | inr e ↦ ground (arith, is_listed-append p ps (q ∷ []), e)
]

payloads_from-is_listed :
    (parse : String → Option String) (ps us : List String) (p : String)
    → is_listed p (payloads_from parse ps us)
      ≡ (if is_listed p ps then true else is_given parse p us)
unfolding payloads_from is_given
payloads_from-is_listed parse ps [] p = ground arith
payloads_from-is_listed parse ps (u ∷ us) p = ground (
  arith,
  payloads_from-is_listed parse (add_payload (parse u) ps) us p,
  add_payload-is_listed (parse u) ps p,
)

-- The payloads of a message are without repetitions, and are exactly those that some link gives.
pub relay_payloads_lem :
    (parse : String → Option String) (entity_urls text_urls : List String)
    → NoDuplicates (relay_payloads parse entity_urls text_urls)
      × ((p : String)
          → is_listed p (relay_payloads parse entity_urls text_urls)
            ≡ is_given parse p (entity_urls ++ text_urls))
unfolding relay_payloads is_listed
relay_payloads_lem parse entity_urls text_urls = (
  payloads_from-NoDuplicates parse [] (entity_urls ++ text_urls) tt,
  λ p. payloads_from-is_listed parse [] (entity_urls ++ text_urls) p,
)
