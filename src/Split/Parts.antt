-- ===== src/Split/Parts.antt =====
-- The part files that the writer of storage/telegram/split.go leaves.
use save_any_bot.Prelude.{
  ℕ, zero, suc, ◌+◌, ◌-◌, ◌≤◌, ◌<◌, ◌≡◌, refl, sym, ap, subst, ◌∙◌, Bool, true, false, Option, none,
  some, List, [], ◌∷◌, ◌++◌, append_assoc, append-nil, min, length, take, drop, take-add, arith,
  All, All-append, length-append, length-take, length-drop, Bool-cases, inl, inr,
}
use save_any_bot.Split.{
  SplitError, Disk, PartFile, SplitWriter, new_split_writer, open_part, next_part_from, next_part,
  needs_part, ready, put_chunk, write_from, write, after_chunk, after_ready, part_number,
}

abbrev pub contents : List PartFile → List ℕ
contents [] = []
contents (f ∷ fs) = f.content ++ contents fs

abbrev pub open_content : Option PartFile → List ℕ
open_content none = []
open_content (some f) = f.content

-- All bytes in the parts, in the order of the files.
abbrev pub stored : SplitWriter → List ℕ
stored w = contents w.finished ++ open_content w.current_file

-- Files numbered one after the other from `k` on.
abbrev pub Numbered : ℕ → List PartFile → Type 0
Numbered k [] = Unit
Numbered k (f ∷ fs) = (f.number ≡ k) × Numbered (suc k) fs

abbrev pub OpenInv : SplitWriter → Option PartFile → Type 0
OpenInv w none = (w.current_part ≡ 0) × (w.finished ≡ [])
OpenInv w (some f) =
    (w.current_size ≡ length f.content)
    × (w.current_size ≤ w.part_size)
    × (f.number ≡ w.current_part)
    × (w.current_part ≡ suc (length w.finished))

-- Every finished part is full, the open one holds a part's size at most, and the files are numbered
-- 1, 2, 3, ….
pub record Inv (w : SplitWriter) : Type 0 where
  pub opened : OpenInv w w.current_file
  pub full : All (λ (f : PartFile). length f.content ≡ w.part_size) w.finished
  pub numbered : Numbered 1 w.finished

contents-append :
    (fs : List PartFile) (f : PartFile) → contents (fs ++ f ∷ []) ≡ contents fs ++ f.content
contents-append [] f = append-nil f.content
contents-append (g ∷ fs) f =
    ap (◌++◌ g.content) (contents-append fs f)
    ∙ sym (append_assoc g.content (contents fs) f.content)

Numbered-append :
    (k : ℕ) (fs : List PartFile) (f : PartFile)
    → Numbered k fs
    → f.number ≡ k + length fs
    → Numbered k (fs ++ f ∷ [])
Numbered-append k [] f h e = (omega arith, tt)
Numbered-append k (g ∷ fs) f h e = (h.0, Numbered-append (suc k) fs f h.1 (omega arith))

pub new_split_writer-Inv : (part_size : ℕ) → Inv (new_split_writer part_size)
unfolding new_split_writer
new_split_writer-Inv part_size = record { opened = (refl, refl); full = tt; numbered = tt }

-- A writer that can take a byte.
abbrev HasRoom : SplitWriter → Option PartFile → Type 0
HasRoom w none = ⊥
HasRoom w (some f) = w.current_size < w.part_size

module _ (disk : Disk) where
  -- What `ready` and `nextPart` leave: nothing lost, and room unless they failed.
  abbrev Readies : SplitWriter → SplitWriter × Option SplitError → Type 0
  Readies w (w', some e) = (w' ≡ w)
  Readies w (w', none) =
      Inv w' × (stored w' ≡ stored w) × (w'.part_size ≡ w.part_size) × HasRoom w' w'.current_file

  open_part-Readies :
      (w : SplitWriter) (fs : List PartFile)
      → 0 < w.part_size
      → All (λ (f : PartFile). length f.content ≡ w.part_size) fs
      → Numbered 1 fs
      → w.current_part ≡ length fs
      → contents fs ≡ stored w
      → Readies w (open_part disk w fs)
  unfolding open_part part_number
  open_part-Readies w fs h full numbered count same =
      elim (Bool-cases (disk.creates w.current_part)) [
        | inl c ↦
            rw (c, open_part)
              (
                record {
                  opened = (refl, omega arith, refl, omega arith);
                  full = full;
                  numbered = numbered;
                },
                append-nil (contents fs) ∙ same,
                refl,
                h,
              )
        | inr c ↦ rw (c, open_part) refl
      ]

  next_part-Readies :
      (w : SplitWriter) (o : Option PartFile)
      → w.current_file ≡ o
      → 0 < w.part_size
      → needs_part disk w o ≡ true
      → OpenInv w o
      → Inv w
      → Readies w (next_part_from disk w o)
  unfolding next_part_from needs_part
  next_part-Readies w none e h q o v =
      open_part-Readies w w.finished h v.full v.numbered (omega (arith, ap length o.1))
        (rw e (sym (append-nil (contents w.finished))))
  next_part-Readies w (some f) e h q o v = elim (Bool-cases (disk.closes f.number)) [
    | inl c ↦
        rw (c, next_part_from)
          (open_part-Readies w (w.finished ++ f ∷ []) h
            (All-append _ w.finished (f ∷ []) v.full (ground arith, tt))
            (Numbered-append 1 w.finished f v.numbered (omega arith))
            (omega (arith, length-append w.finished (f ∷ [])))
            (contents-append w.finished f
              ∙ ap (λ x. contents w.finished ++ open_content x) (sym e)))
    | inr c ↦ rw (c, next_part_from) refl
  ]

  no_need-HasRoom :
      (w : SplitWriter) (o : Option PartFile) → needs_part disk w o ≡ false → HasRoom w o
  unfolding needs_part
  no_need-HasRoom w none q = cc q
  no_need-HasRoom w (some f) q = ground arith

  ready-Readies : (w : SplitWriter) → 0 < w.part_size → Inv w → Readies w (ready disk w)
  unfolding ready next_part
  ready-Readies w h v = elim (Bool-cases (needs_part disk w w.current_file)) [
    | inl q ↦ rw (q, ready) (next_part-Readies w w.current_file refl h q v.opened v)
    | inr q ↦ rw (q, ready) (v, refl, refl, no_need-HasRoom w w.current_file q)
  ]

  -- What one chunk leaves: its bytes are stored behind the others, and none was taken only if the
  -- operating system took fewer than it was offered.
  abbrev Chunk : SplitWriter → List ℕ → SplitWriter × ℕ × Bool → Type 0
  Chunk w p (w', n, short) =
      Inv w'
      × (stored w' ≡ stored w ++ take n p)
      × (w'.part_size ≡ w.part_size)
      × (n ≤ length p)
      × (short ≡ false → 0 < n)

  put_chunk-Chunk :
      (w : SplitWriter) (o : Option PartFile) (x : ℕ) (xs : List ℕ)
      → w.current_file ≡ o
      → OpenInv w o
      → HasRoom w o
      → Inv w
      → Chunk w (x ∷ xs) (put_chunk disk w o (x ∷ xs))
  unfolding put_chunk
  put_chunk-Chunk w none x xs e i r v = absurd r
  put_chunk-Chunk w (some f) x xs e i r v = (
    record {
      opened = (
        omega (arith, length-append f.content (take n (x ∷ xs)), length-take n (x ∷ xs), fits),
        omega (arith, fits),
        i.2,
        i.3,
      );
      full = v.full;
      numbered = v.numbered;
    },
    sym (append_assoc (contents w.finished) f.content (take n (x ∷ xs)))
        ∙ ap (λ o. (contents w.finished ++ open_content o) ++ take n (x ∷ xs)) (sym e),
    refl,
    omega (arith, fits),
    λ s. ground (arith, fits),
  )
    where
      n : ℕ
      n =
          disk.accepts f.number (length f.content)
            (min (length (x ∷ xs)) (w.part_size - w.current_size))

      fits : n ≤ min (length (x ∷ xs)) (w.part_size - w.current_size)
      fits = disk.accepts-le f.number (length f.content) _

module _ (disk : Disk) where
  -- What `Write` of `p` may leave, `before` bytes of an earlier part of it being written: some
  -- prefix of `p` is stored behind all that was there, the count says which, and it is all of `p` if
  -- no error is returned.
  abbrev pub Wrote :
      SplitWriter → List ℕ → ℕ → Option (SplitWriter × ℕ × Option SplitError) → Type 0
  Wrote w p before none = ⊥
  Wrote w p before (some (w', n, err)) =
      Inv w'
      × (w'.part_size ≡ w.part_size)
      × ((k : ℕ) × (n ≡ before + k)
          × (k ≤ length p)
          × (stored w' ≡ stored w ++ take k p)
          × (err ≡ none → k ≡ length p))

  after_chunk-Wrote :
      (next : SplitWriter → List ℕ → ℕ → Option (SplitWriter × ℕ × Option SplitError))
      (w u : SplitWriter) (p : List ℕ) (before part : ℕ) (c : SplitWriter × ℕ × Bool)
      → ((w' : SplitWriter) (q : List ℕ) (b : ℕ)
          → length q < length p
          → 0 < w'.part_size
          → Inv w'
          → Wrote w' q b (next w' q b))
      → 0 < w.part_size
      → stored u ≡ stored w
      → u.part_size ≡ w.part_size
      → Chunk disk u p c
      → Wrote w p before (after_chunk disk next p before part c)
  unfolding after_chunk
  after_chunk-Wrote next w u p before part (w', n, true) ih s same size
        (v, kept, size', fits, some_left) =
      (v, size' ∙ size, (n, refl, fits, kept ∙ ap (λ l. l ++ take n p) same, λ e. cc))
  after_chunk-Wrote next w u p before part (w', n, false) ih s same size
        (v, kept, size', fits, some_left) =
      combine (next w' (drop n p) (before + n)) (
        ih w' (drop n p) (before + n) (omega (arith, length-drop n p, some_left refl)) (omega arith)
          v)
    where
      combine :
          (r : Option (SplitWriter × ℕ × Option SplitError))
          → Wrote w' (drop n p) (before + n) r
          → Wrote w p before r
      combine none h = h
      combine (some (w'', m, err)) (v'', size'', (k, count, fits', kept', all)) = (
        v'',
        size'' ∙ size' ∙ size,
        (
          n + k,
          omega arith,
          omega (arith, length-drop n p),
          kept'
              ∙ ap (λ l. l ++ take k (drop n p)) (kept ∙ ap (λ l. l ++ take n p) same)
              ∙ append_assoc (stored w) (take n p) (take k (drop n p))
              ∙ ap (◌++◌ (stored w)) (sym (take-add n k p)),
          λ e. omega (arith, all e, length-drop n p),
        ),
      )

  after_ready-Wrote :
      (next : SplitWriter → List ℕ → ℕ → Option (SplitWriter × ℕ × Option SplitError))
      (w : SplitWriter) (x : ℕ) (xs : List ℕ) (before : ℕ) (r : SplitWriter × Option SplitError)
      → ((w' : SplitWriter) (q : List ℕ) (b : ℕ)
          → length q < length (x ∷ xs)
          → 0 < w'.part_size
          → Inv w'
          → Wrote w' q b (next w' q b))
      → 0 < w.part_size
      → Inv w
      → Readies disk w r
      → Wrote w (x ∷ xs) before (after_ready disk next (x ∷ xs) before r)
  unfolding after_ready
  after_ready-Wrote next w x xs before (w', some e) ih s v same = (
    subst Inv (sym same) v,
    ap (λ (u : SplitWriter). u.part_size) same,
    (0, omega arith, omega arith, ap stored same ∙ sym (append-nil (stored w)), λ e. cc),
  )
  after_ready-Wrote next w x xs before (w', none) ih s v (v', same, size, room) =
      after_chunk-Wrote next w w' (x ∷ xs) before w'.current_part _ ih s same size
        (put_chunk-Chunk disk w' w'.current_file x xs refl v'.opened room v')

  write_from-Wrote :
      (fuel : ℕ) (w : SplitWriter) (p : List ℕ) (before : ℕ)
      → length p < fuel
      → 0 < w.part_size
      → Inv w
      → Wrote w p before (write_from disk fuel w p before)
  unfolding write_from
  write_from-Wrote zero w p before h s v = absurd (omega arith)
  write_from-Wrote (suc fuel) w [] before h s v =
      (v, refl, (0, omega arith, omega arith, sym (append-nil (stored w)), λ e. refl))
  write_from-Wrote (suc fuel) w (x ∷ xs) before h s v =
      after_ready-Wrote (write_from disk fuel) w x xs before (ready disk w)
        (λ w' q b shorter. write_from-Wrote fuel w' q b (omega arith)) s v
        (ready-Readies disk w s v)

  -- With a positive part size `Write` always returns. Whatever fails on the way, a prefix of the
  -- given bytes is stored behind all earlier ones, of the length that it returns, and all of them if
  -- it returns no error; and the parts stay as they must be: numbered from 1 without a gap, full but
  -- for the open one, and none larger than the part size.
  pub write-Wrote :
      (w : SplitWriter) (p : List ℕ) → 0 < w.part_size → Inv w → Wrote w p 0 (write disk w p)
  unfolding write
  write-Wrote w p s v = write_from-Wrote (suc (length p)) w p 0 (omega arith) s v
