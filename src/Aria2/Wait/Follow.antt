-- ===== src/Aria2/Wait/Follow.antt =====
-- Which download `waitForDownload` of core/tasks/aria2dl/execute.go ends with.
use save_any_bot.Prelude.{
  ◌≡◌, ◌≢◌, ◌⊎◌, inl, inr, refl, sym, subst, All, Bool, true, false, Bool-cases, str_eq, String,
  Option, none, some, List, [], ◌∷◌, str_eq_iff, ◌++◌, arith, ap, ◌∙◌,
}
use save_any_bot.Aria2.Wait.{
  Status, AriaError, cancelled, Answer, told, refused, Client, Tick, done, ticks, get_status, judge,
  judge_answer, Verdict, completed, keeps_on, follows, fails, Ending, waiting, finished, failed,
  Waited, wait_for_download, go_on, force_remove, remove_download_result, Executed, execute,
  after_wait, after_failure, after_complete, find_status, ask_stopped, search_stopped, not_found,
  not_told, download_error, was_removed,
}

-- What the client tells of a GID: its status, or that among the stopped downloads which has the GID
-- when the first call fails.
pub data Reads (c : Client) (g : String) : Answer → Type 0 where
  direct : (s : Status) → c.tell_status g ≡ some s → Reads c g (told s)
  listed :
      (s : Status) (before after : List Status)
      → c.tell_status g ≡ none
      → c.tell_stopped ≡ some (before ++ s ∷ after)
      → s.gid ≡ g
      → Reads c g (told s)
  unlisted :
      (ss : List Status)
      → c.tell_status g ≡ none
      → c.tell_stopped ≡ some ss
      → All (λ s. s.gid ≢ g) ss
      → Reads c g (refused (not_found c.interrupted))
  silent :
      c.tell_status g ≡ none → c.tell_stopped ≡ none → Reads c g (refused (not_told c.interrupted))

-- What a status stands for.
pub data Means (s : Status) : Verdict → Type 0 where
  is_complete : s.status ≡ "complete" → s.followed_by ≡ [] → Means s completed
  leads :
      (g : String) (others : List String)
      → s.status ≡ "complete"
      → s.followed_by ≡ g ∷ others
      → Means s (follows g)
  is_error : s.status ≡ "error" → Means s (fails (download_error s.error_message s.error_code))
  is_removed : s.status ≡ "removed" → Means s (fails was_removed)
  runs : s.status ≢ "complete" → s.status ≢ "error" → s.status ≢ "removed" → Means s keeps_on

-- A run of the loop through the downloads that it follows: from a GID, over ticks, to an ending
-- with a GID.
pub data Follows : String → List Tick → String → Ending → Type 0 where
  out_of_ticks : (g : String) → Follows g [] g waiting
  stops : (g : String) (ts : List Tick) → Follows g (done ∷ ts) g (failed cancelled)
  untold :
      (g : String) (c : Client) (ts : List Tick) (e : AriaError)
      → Reads c g (refused e)
      → Follows g (ticks c ∷ ts) g (failed e)
  gives_up :
      (g : String) (c : Client) (ts : List Tick) (s : Status) (e : AriaError)
      → Reads c g (told s)
      → Means s (fails e)
      → Follows g (ticks c ∷ ts) g (failed e)
  ends :
      (g : String) (c : Client) (ts : List Tick) (s : Status)
      → Reads c g (told s)
      → Means s completed
      → Follows g (ticks c ∷ ts) g finished
  waits :
      (g h : String) (c : Client) (ts : List Tick) (end : Ending) (s : Status)
      → Reads c g (told s)
      → Means s keeps_on
      → Follows g ts h end
      → Follows g (ticks c ∷ ts) h end
  moves_on :
      (g h next : String) (c : Client) (ts : List Tick) (end : Ending) (s : Status)
      → Reads c g (told s)
      → Means s (follows next)
      → Follows next ts h end
      → Follows g (ticks c ∷ ts) h end

abbrev Found : Bool → String → List Status → Type 0
Found interrupted g ss =
    ((s : Status) × (before : List Status) × (after : List Status) × (find_status interrupted g ss
        ≡ told s)
      × (ss ≡ before ++ s ∷ after)
      × (s.gid ≡ g))
    ⊎ ((find_status interrupted g ss ≡ refused (not_found interrupted)) × All (λ s. s.gid ≢ g) ss)

find_status-Found : (interrupted : Bool) (g : String) (ss : List Status) → Found interrupted g ss
unfolding find_status
find_status-Found b g [] = inr (refl, tt)
find_status-Found b g (s ∷ ss) = elim (Bool-cases (str_eq s.gid g)) [
  | inl e ↦ inl (s, [], ss, rw (find_status, e) refl, refl, ground (arith, e, str_eq_iff s.gid g))
  | inr e ↦ elim (find_status-Found b g ss) [
    | inl (t, before, after, p, q, r) ↦
        inl (t, s ∷ before, after, rw (find_status, e) p, ap (◌∷◌ s) q, r)
    | inr (p, q) ↦ inr (rw (find_status, e) p, ((λ k. ground (arith, e, k, str_eq_iff s.gid g)), q))
  ]
]

get_status-Reads : (c : Client) (g : String) → Reads c g (get_status c g)
unfolding get_status ask_stopped search_stopped
get_status-Reads c g = told_of (c.tell_status g) refl c.tell_stopped refl
  where
    told_of :
        (o : Option Status)
        → c.tell_status g ≡ o
        → (l : Option (List Status)) → c.tell_stopped ≡ l
        → Reads c g (ask_stopped (record c { tell_stopped = l }) g o)
    told_of (some s) p l q = direct s p
    told_of none p none q = silent p q
    told_of none p (some ss) q = elim (find_status-Found c.interrupted g ss) [
      | inl (s, before, after, e, w, r) ↦
          subst (Reads c g) (sym e) (listed s before after p (q ∙ ap some w) r)
      | inr (e, r) ↦ subst (Reads c g) (sym e) (unlisted ss p q r)
    ]

differs : (a b : String) → str_eq a b ≡ false → a ≢ b
differs a b e k = ground (arith, e, k, str_eq_iff a b)

same : (a b : String) → str_eq a b ≡ true → a ≡ b
same a b e = ground (arith, e, str_eq_iff a b)

judge-Means : (s : Status) → Means s (judge s)
unfolding judge
judge-Means s = elim (Bool-cases (str_eq s.status "complete")) [
  | inl e ↦ rw e (complete (same _ _ e) s.followed_by refl)
  | inr e ↦ elim (Bool-cases (str_eq s.status "error")) [
    | inl f ↦ rw (e, f) (is_error (same _ _ f))
    | inr f ↦ elim (Bool-cases (str_eq s.status "removed")) [
      | inl r ↦ rw (e, f, r) (is_removed (same _ _ r))
      | inr r ↦ rw (e, f, r) (runs (differs _ _ e) (differs _ _ f) (differs _ _ r))
    ]
  ]
]
  where
    complete :
        s.status ≡ "complete" → (l : List String) → s.followed_by ≡ l → Means s (after_complete l)
    complete p [] e = unfold after_complete in is_complete p e
    complete p (g ∷ gs) e = unfold after_complete in leads g gs p e

go_on-Follows :
    (g : String) (c : Client) (ts : List Tick) (next : String → Waited) (s : Status) (v : Verdict)
    → Reads c g (told s)
    → Means s v
    → ((h : String) → Follows h ts (next h).gid (next h).ending)
    → Follows g (ticks c ∷ ts) (go_on g next v).gid (go_on g next v).ending
unfolding go_on
go_on-Follows g c ts next s completed r m ih = ends g c ts s r m
go_on-Follows g c ts next s keeps_on r m ih = waits g (next g).gid c ts (next g).ending s r m (ih g)
go_on-Follows g c ts next s (follows n) r m ih =
    moves_on g (next n).gid n c ts (next n).ending s r m (ih n)
go_on-Follows g c ts next s (fails e) r m ih = gives_up g c ts s e r m

answer-Follows :
    (g : String) (c : Client) (ts : List Tick) (next : String → Waited) (a : Answer)
    → Reads c g a
    → ((h : String) → Follows h ts (next h).gid (next h).ending)
    → Follows g
        (ticks c ∷ ts)
        (go_on g next (judge_answer a)).gid
        (go_on g next (judge_answer a)).ending
unfolding judge_answer
answer-Follows g c ts next (told s) r ih =
    go_on-Follows g c ts next s (judge s) r (judge-Means s) ih
answer-Follows g c ts next (refused e) r ih = unfold go_on in untold g c ts e r

-- The loop is sound whatever the client answers. At each tick it goes by the status that the client
-- tells for the GID that it has, or by that among the stopped downloads with this GID if the first call
-- fails: it ends successfully only if that status is "complete" and is followed by no download; it changes
-- its GID only to the first download that follows a complete one; it waits on for any other status but
-- "error" and "removed"; and it ends otherwise only with the error of one of these, of a done context, or of
-- a status that cannot be had.
pub wait_for_download-Follows :
    (ts : List Tick) (g : String)
    → Follows g ts (wait_for_download g ts).gid (wait_for_download g ts).ending
unfolding wait_for_download
wait_for_download-Follows [] g = out_of_ticks g
wait_for_download-Follows (done ∷ ts) g = stops g ts
wait_for_download-Follows (ticks c ∷ ts) g =
    answer-Follows g c ts (λ h. wait_for_download h ts) (get_status c g) (get_status-Reads c g)
      (wait_for_download-Follows ts)

go_on-append :
    (g : String) (v : Verdict) (next more : String → Waited) (us : List Tick)
    → ((h : String) → (next h).ending ≡ waiting → more h ≡ wait_for_download (next h).gid us)
    → (go_on g next v).ending ≡ waiting
    → go_on g more v ≡ wait_for_download (go_on g next v).gid us
unfolding go_on
go_on-append g completed next more us ih h = ground arith
go_on-append g keeps_on next more us ih h = ih g h
go_on-append g (follows n) next more us ih h = ih n h
go_on-append g (fails e) next more us ih h = ground arith

wait_for_download-append :
    (ts us : List Tick) (g : String)
    → (wait_for_download g ts).ending ≡ waiting
    → wait_for_download g (ts ++ us) ≡ wait_for_download (wait_for_download g ts).gid us
unfolding wait_for_download
wait_for_download-append [] us g h = refl
wait_for_download-append (done ∷ ts) us g h = ground arith
wait_for_download-append (ticks c ∷ ts) us g h =
    go_on-append g (judge_answer (get_status c g)) (λ x. wait_for_download x ts)
      (λ x. wait_for_download x (ts ++ us)) us (λ x p. wait_for_download-append ts us x p) h

-- If the context is done while the loop waits, then `Execute` has aria2 stop the download that the
-- loop then waits for, which may be one that follows the first, and remove its result, and it tells
-- its tracker of the cancellation.
pub execute-cancelled :
    (transfer : String → Option String) (g : String) (ts us : List Tick)
    → (wait_for_download g ts).ending ≡ waiting
    → let h = (wait_for_download g ts).gid in
      ((execute transfer g (ts ++ done ∷ us)).requests
        ≡ force_remove h ∷ remove_download_result h ∷ [])
      × ((execute transfer g (ts ++ done ∷ us)).outcome ≡ some (some cancelled))
unfolding execute wait_for_download after_wait after_failure
execute-cancelled transfer g ts us h =
    let p = wait_for_download-append ts (done ∷ us) g h in
    let end : Waited → Executed = λ w. after_wait (transfer w.gid) w.gid w.ending in
    (ap (λ w. (end w).requests) p, ap (λ w. (end w).outcome) p)
