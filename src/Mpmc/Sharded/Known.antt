-- ===== src/Mpmc/Sharded/Known.antt =====
-- What each side knows of its ring, at every place where it may be.
use principal_katas.Mpmc.Sharded.Lane.{
  Writer, idle, loaded, roomy, written, Reader, resting, reading, holding, Lane,
}
use principal_katas.Prelude.{
  ℕ, ◌+◌, ◌%◌, ◌^◌, ◌≤◌, ◌<◌, ◌≡◌, ◌≢◌, sym, ap, ◌∙◌, Bool, true, false, List, [], ◌∷◌, ◌++◌, arith,
  append_assoc, put_at, ◌==◌, sub64, if◌then◌else◌,
}
use principal_katas.Mpmc.Sharded.{Ring, position, close_ring, commit}
use principal_katas.Mpmc.Sharded.Valid.{IsValid, IsWritten, contents}

-- a known head that does not show a full ring shows room
pub near : (n p h : ℕ) → (sub64 p h == n) ≡ false → h ≤ p → p ≤ h + n → p < 2 ^ 62 → p < h + n
near n p h e le up small = ground arith

module _ {A : Type 0} (n : ℕ) where
  -- what a producer knows of the ring, and what the consumer knows
  abbrev pub WriterOk : Ring A → Writer A → Type 0
  WriterOk r idle = 0 ≤ 0
  WriterOk r (loaded word v) = (word % 2 ≡ 0) × (position word ≡ position r.tail)
  WriterOk r (roomy word v) =
      (word % 2 ≡ 0) × (position word ≡ position r.tail) × (position word < r.cached_head + n)
  WriterOk r (written word v) = IsWritten n r word v

  abbrev pub ReaderOk : Ring A → Reader A → Type 0
  ReaderOk r resting = 0 ≤ 0
  ReaderOk r reading = r.head < r.cached_tail
  ReaderOk r (holding v) = (r.head < r.cached_tail) × (r.slots (r.head % n) ≡ v)

  pub record Inv (s : Lane A) : Type 0 where
    pub valid : IsValid n s.ring
    pub writer_ok : WriterOk s.ring s.writer
    pub reader_ok : ReaderOk s.ring s.reader
    pub lossless : s.accepted ≡ s.delivered ++ contents n s.ring

  pub WriterOk-kept :
      (r r' : Ring A) (w : Writer A)
      → position r'.tail ≡ position r.tail
      → r'.cached_head ≡ r.cached_head
      → r'.slots ≡ r.slots
      → WriterOk r w
      → WriterOk r' w
  WriterOk-kept r r' idle t c s p = p
  WriterOk-kept r r' (loaded word v) t c s p = (p.0, p.1 ∙ sym t)
  WriterOk-kept r r' (roomy word v) t c s p = (p.0, p.1 ∙ sym t, omega (arith, p.2, c))
  WriterOk-kept r r' (written word v) t c s p = record {
    was_open = p.was_open;
    here = p.here ∙ sym t;
    room = omega (arith, p.room, c);
    stored = ap (λ f. f (position word % n)) s ∙ p.stored;
  }

  pub ReaderOk-kept :
      (r r' : Ring A) (w : Reader A)
      → r'.head ≡ r.head
      → r'.cached_tail ≡ r.cached_tail
      → (r.head < r.cached_tail → r'.slots (r.head % n) ≡ r.slots (r.head % n))
      → ReaderOk r w
      → ReaderOk r' w
  ReaderOk-kept r r' resting h c s p = p
  ReaderOk-kept r r' reading h c s p = omega (arith, p, h, c)
  ReaderOk-kept r r' (holding v) h c s p =
      (omega (arith, p.0, h, c), ap (λ k. r'.slots (k % n)) h ∙ s p.0 ∙ p.1)

  pub commit_kept :
      (word : ℕ) (r : Ring A)
      → let r' = (commit word r).1 in
        (r'.head ≡ r.head) × (r'.cached_tail ≡ r.cached_tail) × (r'.slots ≡ r.slots)
  unfolding commit
  commit_kept word r = (ground arith, ground arith, ground arith)

  pub close_kept : (r : Ring A) → position (close_ring r).tail ≡ position r.tail
  unfolding close_ring
  close_kept r = ground arith

  pub grown :
      (ok : Bool) (v : A) (accepted delivered held held' : List A)
      → accepted ≡ delivered ++ held
      → held' ≡ (if ok then held ++ v ∷ [] else held)
      → (if ok then accepted ++ v ∷ [] else accepted) ≡ delivered ++ held'
  grown true v a d h h' e f =
      ap (λ l. l ++ v ∷ []) e ∙ append_assoc d h (v ∷ []) ∙ ap (λ l. d ++ l) (sym f)
  grown false v a d h h' e f = e ∙ ap (λ l. d ++ l) (sym f)

  pub put_away : (f : ℕ → A) (i j : ℕ) (v : A) → i ≢ j → put_at f i v j ≡ f j
  put_away f i j v ne = ground arith

  pub put_here : (f : ℕ → A) (i : ℕ) (v : A) → put_at f i v i ≡ v
  put_here f i v = ground arith
