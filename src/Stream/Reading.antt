-- ===== src/Stream/Reading.antt =====
-- What a read and a seek do on a stream whose next bytes are known.
use bsc_thesis.Base.{
  ℕ, ◌+◌, ◌-◌, ◌^◌, ◌<◌, ◌≡◌, refl, sym, ap, ◌∙◌, true, false, List, [], ◌∷◌, ◌++◌, arith, length,
  drop, length-append, take-length_append, drop-length_append, drop-drop, le→leb, append-nil,
}
use bsc_thesis.Stream.{Stream, read, seek_cur, seek_beg, overwrite}

-- The stream over `file` at position `p`, in a good state, and the same after a failure.
abbrev pub good : List ℕ → ℕ → Stream
good file p = record { bytes = file; pos = p; failed = false }

abbrev pub bad : List ℕ → ℕ → Stream
bad file p = record { bytes = file; pos = p; failed = true }

pub drop_step :
    (file : List ℕ) (p n : ℕ) (xs rest : List ℕ)
    → drop p file ≡ xs ++ rest
    → length xs ≡ n
    → drop (p + n) file ≡ rest
drop_step file p n xs rest h e = sym (drop-drop p n file) ∙ rw (h, ← e) (drop-length_append xs rest)

pub read_lem :
    (file : List ℕ) (p n : ℕ) (xs rest : List ℕ)
    → drop p file ≡ xs ++ rest
    → length xs ≡ n
    → read n (good file p) ≡ (xs, good file (p + n))
unfolding read
read_lem file p n xs rest h e =
    rw (h, ← e, le→leb (length xs) (length (xs ++ rest)) (omega (arith, length-append {0} xs rest)))
      (ap (λ t. (t, good file (p + length xs))) (take-length_append xs rest))

-- At the end of the file a read fails and moves nothing.
pub read_end :
    (file : List ℕ) (p n : ℕ) → drop p file ≡ [] → 0 < n → read n (good file p) ≡ ([], bad file p)
unfolding read
read_end file p n h pos = rw h (ground arith)

pub read_failed : (file : List ℕ) (p n : ℕ) → read n (bad file p) ≡ ([], bad file p)
unfolding read
read_failed file p n = refl

pub seek_cur_lem :
    (file : List ℕ) (p n : ℕ) → p + n < 2 ^ 63 → seek_cur n (good file p) ≡ good file (p + n)
unfolding seek_cur
seek_cur_lem file p n h = ground arith

pub seek_beg_lem : (file : List ℕ) (p n : ℕ) → n < 2 ^ 63 → seek_beg n (good file p) ≡ good file n
unfolding seek_beg
seek_beg_lem file p n h = ground arith

-- One byte written over the first of the bytes that follow `before`.
pub overwrite_byte :
    (before : List ℕ) (old new : ℕ) (after : List ℕ)
    → overwrite (new ∷ []) (good (before ++ (old ∷ after)) (length before))
      ≡ good (before ++ (new ∷ after)) (length before + 1)
unfolding overwrite
overwrite_byte before old new after =
    let file = before ++ (old ∷ after) in
    let inside : length before - length file ≡ 0 =
      omega (arith, length-append {0} before (old ∷ after)) in
    let beyond : drop (length before + 1) file ≡ after =
      drop_step file (length before) 1 (old ∷ []) after (drop-length_append before (old ∷ after))
        refl in
    simp (take-length_append, inside, beyond, append-nil)
