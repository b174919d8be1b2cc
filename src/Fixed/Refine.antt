-- ===== src/Fixed/Refine.antt =====
-- The queue of messages that a fixed-block buffer implements.
use mathlib.Core.Path.{subst}
use bingewatch.Prelude.{
  ℕ, ◌<◌, ◌≡◌, refl, ap, ◌∙◌, inl, inr, true, false, Option, some, List, [], ◌∷◌, ◌++◌, length, All,
  All-append_right, arith, ltb, if-true, Bool-cases, ◌>>=◌,
}
use bingewatch.Status.{Status}
use bingewatch.Block.{Grants}
use bingewatch.Block.Carve.{Supplies}
use bingewatch.Fixed.{FixedRing, FixedReply, fbb_buf_read, fbb_buf_write}
use bingewatch.Fixed.Messages.{Holding}
use bingewatch.Fixed.Pop.{picked, fbb_buf_read-Holding, fbb_buf_read-nothing}
use bingewatch.Fixed.Put.{fbb_buf_write-Holding}

pub data FixedCall : Type 0 where
  put_message : List ℕ → FixedCall
  get_message : (bytes align : ℕ) → FixedCall

-- A write has at least one byte, and a read an alignment.
abbrev pub Proper : FixedCall → Type 0
Proper (put_message input) = 0 < length input
Proper (get_message bytes align) = 0 < align

-- What the caller sees of a call: its code, `*bytes` and the bytes in the buffer.
abbrev pub Heard : Type 0
Heard = Status × ℕ × List ℕ

abbrev seen : FixedReply → Heard
seen a = (a.status, a.count, a.out)

pub run_fixed : Grants → FixedRing → List FixedCall → Option (List Heard)
run_fixed grant r [] = some []
run_fixed grant r (put_message input ∷ calls) = do
  a ← fbb_buf_write grant r input
  rest ← run_fixed grant a.ring calls
  some (seen a ∷ rest)
run_fixed grant r (get_message bytes align ∷ calls) = do
  rest ← run_fixed grant (fbb_buf_read r bytes align).ring calls
  some (seen (fbb_buf_read r bytes align) ∷ rest)

-- The same calls on a queue of messages of at most `size` bytes: a message that is too long is
-- dropped, and the caller told that it was written; one that does not fit the buffer of its
-- reader is lost.
unfoldable pub run_messages : (size : ℕ) → List (List ℕ) → List FixedCall → List Heard
run_messages size ms [] = []
run_messages size ms (put_message input ∷ calls) =
    (Status.success, length input, []) ∷ (elim (ltb size (length input)) [
      | true ↦ run_messages size ms calls
      | false ↦ run_messages size (ms ++ input ∷ []) calls
    ])
run_messages size [] (get_message bytes align ∷ calls) =
    (Status.success, 0, []) ∷ run_messages size [] calls
run_messages size (m ∷ ms) (get_message bytes align ∷ calls) =
    (Status.success, length (picked bytes align m), picked bytes align m)
    ∷ run_messages size ms calls

module _ (grant : Grants) where
  -- A message that is longer than a block is dropped.
  fbb_buf_write-dropped :
      (r : FixedRing) (input : List ℕ) (ms : List (List ℕ))
      → Holding r ms
      → ltb r.block_size (length input) ≡ true
      → fbb_buf_write grant r input
        ≡ some (record { ring = r; status = Status.success; count = length input; out = [] })
  unfolding fbb_buf_write
  fbb_buf_write-dropped r input ms h long =
      let same : (r.heap.cell r.wp).size ≡ r.block_size =
        (All-append_right _ h.filled (r.wp ∷ h.blank) h.sized).0 in
      if-true (ltb (r.heap.cell r.wp).size (length input)) _ _ (rw same long)

  run_put :
      (r : FixedRing) (input : List ℕ) (calls : List FixedCall) (a : FixedReply) (rest : List Heard)
      → fbb_buf_write grant r input ≡ some a
      → a.status ≡ Status.success
      → a.count ≡ length input
      → a.out ≡ []
      → run_fixed grant a.ring calls ≡ some rest
      → run_fixed grant r (put_message input ∷ calls)
        ≡ some ((Status.success, length input, []) ∷ rest)
  unfolding run_fixed
  run_put r input calls a rest e st ct out next = rw (run_fixed, e, next, st, ct, out) refl

  run_get :
      (r : FixedRing) (bytes align : ℕ) (calls : List FixedCall) (got : List ℕ) (rest : List Heard)
      → let a = fbb_buf_read r bytes align in
        a.status ≡ Status.success
        → a.count ≡ length got
        → a.out ≡ got
        → run_fixed grant a.ring calls ≡ some rest
        → run_fixed grant r (get_message bytes align ∷ calls)
          ≡ some ((Status.success, length got, got) ∷ rest)
  unfolding run_fixed
  run_get r bytes align calls got rest st ct out next = rw (run_fixed, next, st, ct, out) refl

  -- A fixed-block buffer answers every sequence of writes of at least one byte and of reads of an
  -- alignment that is not 0 as a queue of messages does, as long as memory is to be had: messages
  -- come out whole, one to a read and in order, a message longer than a block is dropped although
  -- its writer is told that it was written, and one that is too long for its reader is lost.
  pub run_fixed-run_messages :
      (calls : List FixedCall) (r : FixedRing) (ms : List (List ℕ))
      → Holding r ms
      → ((a : ℕ) → Supplies (grant a) r.block_size)
      → All Proper calls
      → run_fixed grant r calls ≡ some (run_messages r.block_size ms calls)
  unfolding run_fixed run_messages
  run_fixed-run_messages [] r ms h ample p = refl
  run_fixed-run_messages (put_message input ∷ calls) r ms h ample p =
      elim (Bool-cases (ltb r.block_size (length input))) [
        | inl long ↦ rw long (
            run_put r input calls _ _ (fbb_buf_write-dropped r input ms h long) refl refl refl
              (run_fixed-run_messages calls r ms h ample p.1))
        | inr short ↦
            let (a, e, st, ct, out, size, h') =
              fbb_buf_write-Holding grant r input ms h ample p.0 (ground (arith, short)) in
            let next =
              subst
                (λ k. run_fixed grant a.ring calls ≡ some (run_messages k (ms ++ input ∷ []) calls))
                size
                (run_fixed-run_messages calls a.ring (ms ++ input ∷ []) h' (λ b. rw size (ample b))
                  p.1) in
            rw short (run_put r input calls a _ e st ct out next)
      ]
  run_fixed-run_messages (get_message bytes align ∷ calls) r [] h ample p =
      let e = fbb_buf_read-nothing r bytes align h in
      run_get r bytes align calls [] _ (ap (λ a. a.status) e) (ap (λ a. a.count) e)
        (ap (λ a. a.out) e)
        (ap (λ a. run_fixed grant a.ring calls) e ∙ run_fixed-run_messages calls r [] h ample p.1)
  run_fixed-run_messages (get_message bytes align ∷ calls) r (m ∷ ms) h ample p =
      let (out, ct, st, size, h') = fbb_buf_read-Holding r bytes align m ms h p.0 in
      let after = (fbb_buf_read r bytes align).ring in
      run_get r bytes align calls (picked bytes align m) _ st ct out (
        subst (λ k. run_fixed grant after calls ≡ some (run_messages k ms calls)) size
          (run_fixed-run_messages calls after ms h' (λ b. rw size (ample b)) p.1))
