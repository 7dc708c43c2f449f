-- ===== src/Relay/Dialogue/Answers.antt =====
-- Which files the updates in client/bot/handlers/bot_relay.go bring in answer to the start command.
use save_any_bot.Prelude.{
  not, ◌||◌, ◌==◌, ◌≤◌, ◌≢◌, Bool-cases, leb, ltb, ℕ, ◌≡◌, ◌<◌, refl, ap, sym, subst, Bool, true,
  false, Option, none, some, List, [], ◌∷◌, ◌++◌, arith, inl, inr, ◌⊎◌, if◌then◌else◌,
}
use save_any_bot.Relay.Dialogue.{
  document, photo, other_media, Sender, no_sender, other_sender, user_sender, Update, sent_by,
  Media, Response, Event, arrives, quiet_fires, timeout_fires, ctx_done, handle_update,
  relay_response_matches, relay_file,
}

sent_by-Author :
    (target chat : ℕ) (o : Sender)
    → chat ≡ target
    → ((sent_by chat o ≡ true) × ((o ≡ no_sender) ⊎ (o ≡ user_sender target)))
      ⊎ ((sent_by chat o ≡ false) × (o ≢ no_sender) × (o ≢ user_sender target))
unfolding sent_by
sent_by-Author target chat no_sender c = inl (refl, inl refl)
sent_by-Author target chat other_sender c = inr (refl, λ k. cc k, λ k. cc k)
sent_by-Author target chat (user_sender id) c = elim (Bool-cases (id == chat)) [
  | inl e ↦ inl (e, inr (ap user_sender (ground (arith, e, c))))
  | inr e ↦ inr (e, λ k. cc k, λ k. absurd (ground (arith, e, k, c)))
]

module _ {ℓ} {F : Type ℓ} where
  unfoldable pub listed : Option F → List F
  listed none = []
  listed (some f) = f ∷ []

  unfoldable pub media_files : Option (Media F) → List F
  unfolding listed
  media_files none = []
  media_files (some m) = listed (relay_file m)

  unfoldable pub answer_files : ℕ → Option (Response F) → List F
  unfolding media_files
  answer_files start none = []
  answer_files start (some m) = if relay_response_matches m start then media_files m.media else []

  -- The file of a document or of a photo.
  abbrev pub file_of : Option (Media F) → List F
  file_of (some (document (some f))) = f ∷ []
  file_of (some (photo (some f))) = f ∷ []
  file_of _ = []

  -- A new message in the private chat with the target bot, which the bot itself sent.
  pub record FromTarget (target : ℕ) (u : Update F) : Type 0 where
    pub incoming : u.is_out ≡ false
    pub new : u.is_edit ≡ false
    pub private : u.from_user_chat ≡ true
    pub chat : u.chat_id ≡ target
    pub author : (u.sender ≡ no_sender) ⊎ (u.sender ≡ user_sender target)

  -- A message after the start command, that replies to no message, or to the command or a later one.
  pub record AnswersStart (start : ℕ) (m : Response F) : Type 0 where
    pub later : start < m.id
    pub reply : (m.reply_to ≡ none) ⊎ ((r : ℕ) × (m.reply_to ≡ some r) × ((r ≡ 0) ⊎ (start ≤ r)))

  -- The files of one update: those of a message of the target that answers the command, and no others.
  pub data FilesOf (target start : ℕ) (u : Update F) : List F → Type ℓ where
    empty : u.message ≡ none → FilesOf target start u []
    answer :
        (m : Response F)
        → u.message ≡ some m
        → FromTarget target u
        → AnswersStart start m
        → FilesOf target start u (file_of m.media)
    foreign : ¬ FromTarget target u → FilesOf target start u []
    unrelated :
        (m : Response F) → u.message ≡ some m → ¬ AnswersStart start m → FilesOf target start u []

  -- The files of the messages of the target bot that answer the start command, in order.
  unfoldable pub answered : ℕ → ℕ → List (Event F) → List F
  unfolding answer_files
  answered target start [] = []
  answered target start (arrives u ∷ es) =
      answer_files start (handle_update target u) ++ answered target start es
  answered target start (quiet_fires ∷ es) = answered target start es
  answered target start (timeout_fires ∷ es) = answered target start es
  answered target start (ctx_done ∷ es) = answered target start es

  media_files-file_of : (o : Option (Media F)) → media_files o ≡ file_of o
  unfolding media_files relay_file listed
  media_files-file_of none = refl
  media_files-file_of (some (document none)) = refl
  media_files-file_of (some (document (some f))) = refl
  media_files-file_of (some (photo none)) = refl
  media_files-file_of (some (photo (some f))) = refl
  media_files-file_of (some other_media) = refl

  matches-AnswersStart :
      (m : Response F) (start : ℕ)
      → ((relay_response_matches m start ≡ true) × AnswersStart start m)
        ⊎ ((relay_response_matches m start ≡ false) × ¬ AnswersStart start m)
  unfolding relay_response_matches
  matches-AnswersStart m start = elim (Bool-cases (leb m.id start)) [
    | inl e ↦ inr (rw e refl, λ a. let l = a.later in absurd (ground (arith, e, l)))
    | inr e ↦ rw e (reply m.reply_to refl (ground (arith, e)))
  ]
    where
      reply :
          (o : Option ℕ)
          → m.reply_to ≡ o
          → start < m.id
          → let b = elim o as (λ x. Bool) [
            | none ↦ true
            | some r ↦ if ltb 0 r then leb start r else true
          ] in
            ((b ≡ true) × AnswersStart start m) ⊎ ((b ≡ false) × ¬ AnswersStart start m)
      reply none q l = inl (refl, record { later = l; reply = inl q })
      reply (some r) q l = elim (Bool-cases (ltb 0 r)) [
        | inr e ↦ inl (rw e refl, record { later = l; reply = inr (r, q, inl (ground (arith, e))) })
        | inl e ↦ elim (Bool-cases (leb start r)) [
          | inl f ↦
              inl
                (rw (e, f) refl, record { later = l; reply = inr (r, q, inr (ground (arith, f))) })
          | inr f ↦ inr (
            rw (e, f) refl,
            λ a. elim a.reply [
              | inl n ↦ absurd (cc (n, q))
              | inr (x, p, y) ↦
                  let same : r ≡ x = ground (arith, p, q) in
                  elim y [
                    | inl z ↦ absurd (ground (arith, e, same, z))
                    | inr z ↦ absurd (ground (arith, f, same, z))
                  ]
            ],
          )
        ]
      ]

  handle_update-FromTarget :
      (target : ℕ) (u : Update F)
      → ((handle_update target u ≡ u.message) × FromTarget target u)
        ⊎ ((handle_update target u ≡ none) × ¬ FromTarget target u)
  unfolding handle_update
  handle_update-FromTarget target u =
      elim (Bool-cases
        (u.is_out || u.is_edit || not u.from_user_chat || not (target == u.chat_id))) [
          | inl e ↦ inr (
            rw e refl,
            λ f.
                let i = f.incoming in
                let n = f.new in
                let p = f.private in let c = f.chat in absurd (ground (arith, e, i, n, p, c)),
          )
          | inr e ↦
              let chat : u.chat_id ≡ target = ground (arith, e) in
              elim (sent_by-Author target u.chat_id u.sender chat) [
                | inl (s, a) ↦ inl (
                  rw (e, s) refl,
                  record {
                    incoming = ground (arith, e);
                    new = ground (arith, e);
                    private = ground (arith, e);
                    chat = chat;
                    author = a;
                  },
                )
                | inr (s, n, o) ↦
                    inr (rw (e, s) refl, λ f. elim f.author [ inl a ↦ n a | inr a ↦ o a ])
              ]
        ]

  answer_files-FilesOf :
      (target start : ℕ) (u : Update F)
      → FilesOf target start u (answer_files start (handle_update target u))
  unfolding answer_files
  answer_files-FilesOf target start u = elim (handle_update-FromTarget target u) [
    | inr (e, n) ↦ rw e (foreign n)
    | inl (e, f) ↦ rw e (sent u.message refl f)
  ]
    where
      sent :
          (o : Option (Response F))
          → u.message ≡ o
          → FromTarget target u
          → FilesOf target start u (answer_files start o)
      sent none q f = unfold answer_files in empty q
      sent (some m) q f =
          unfold answer_files in
          elim (matches-AnswersStart m start) [
            | inl (e, a) ↦ rw e (
                subst (FilesOf target start u) (sym (media_files-file_of m.media)) (answer m q f a))
            | inr (e, n) ↦ rw e (unrelated m q n)
          ]

  -- The files of some events, each update after the other.
  pub data Answered (target start : ℕ) : List (Event F) → List F → Type ℓ where
    no_events : Answered target start [] []
    then_update :
        (u : Update F) (es : List (Event F)) (fs gs : List F)
        → FilesOf target start u fs
        → Answered target start es gs
        → Answered target start (arrives u ∷ es) (fs ++ gs)
    then_other :
        (e : Event F) (es : List (Event F)) (gs : List F)
        → (e ≡ quiet_fires) ⊎ (e ≡ timeout_fires) ⊎ (e ≡ ctx_done)
        → Answered target start es gs
        → Answered target start (e ∷ es) gs

  pub answered-Answered :
      (target start : ℕ) (es : List (Event F)) → Answered target start es (answered target start es)
  unfolding answered
  answered-Answered target start [] = no_events
  answered-Answered target start (arrives u ∷ es) =
      then_update u es _ _ (answer_files-FilesOf target start u) (answered-Answered target start es)
  answered-Answered target start (quiet_fires ∷ es) =
      then_other quiet_fires es _ (inl refl) (answered-Answered target start es)
  answered-Answered target start (timeout_fires ∷ es) =
      then_other timeout_fires es _ (inr (inl refl)) (answered-Answered target start es)
  answered-Answered target start (ctx_done ∷ es) =
      then_other ctx_done es _ (inr (inr refl)) (answered-Answered target start es)
