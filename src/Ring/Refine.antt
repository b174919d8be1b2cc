-- ===== src/Ring/Refine.antt =====
-- A ring against a queue of bytes: what a caller sees of writes and of reads that do not block.
use bingewatch.Prelude.{
  ℕ, zero, suc, ◌+◌, ◌^◌, ◌<◌, ◌≡◌, refl, ap, ◌∙◌, ◌≢◌, inl, inr, Option, none, some, List, [], ◌∷◌,
  ◌++◌, arith, length, length-append, take, drop, length-drop,
}
use mathlib.Core.Path.{subst}
use native.Mathlib.Nat.{mod-one}
use bingewatch.Status.{Status, Blocking}
use bingewatch.Block.{Grants}
use bingewatch.Ring.{Ring, Reply, align_down, buf_read, buf_write}
use bingewatch.Ring.Fifo.{Holds, wanted, Reads, Plain, buf_read-Reads}
use bingewatch.Ring.Grow.{Ample}
use bingewatch.Ring.Append.{Writes, buf_write-Writes}

-- What a caller can do, and what it sees.
pub data Call : Type 0 where
  put : List ℕ → Call
  get : ℕ → Call

pub data Answer : Type 0 where
  took : Status → ℕ → Answer
  gave : Status → List ℕ → Answer

-- The specification: a queue of bytes.
pub run_queue : List ℕ → List Call → List Answer
run_queue xs [] = []
run_queue xs (put input ∷ calls) =
    took Status.success (length input) ∷ run_queue (xs ++ input) calls
run_queue xs (get n ∷ calls) = gave Status.success (take n xs) ∷ run_queue (drop n xs) calls

-- How many bytes the calls put in.
unfoldable pub put_bytes : List Call → ℕ
put_bytes [] = 0
put_bytes (put input ∷ calls) = length input + put_bytes calls
put_bytes (get n ∷ calls) = put_bytes calls

abbrev pub then_answer : Option (List Answer) → Answer → Option (List Answer)
then_answer none a = none
then_answer (some l) a = some (a ∷ l)

abbrev pub Then : Option Reply → (Reply → Type 0) → Type 0
Then none P = Unit
Then (some r) P = P r

module _ (grant : Grants) (low_mark : ℕ → ℕ → ℕ) where
  -- The calls one after the other; `none` if one of them does not return.
  pub run_ring : Ring → List Call → Option (List Answer)
  run_ring ring [] = some []
  run_ring ring (put input ∷ calls) = elim (buf_write grant low_mark ring input) [
    | none ↦ none
    | some r ↦ then_answer (run_ring r.ring calls) (took r.status r.count)
  ]
  run_ring ring (get n ∷ calls) = elim (buf_read ring n Blocking.no_block 1) [
    | none ↦ none
    | some r ↦ then_answer (run_ring r.ring calls) (gave r.status r.out)
  ]

  -- The growths of the calls do not bring `block_realloc` to 0, as doubling modulo 2^64 does in the
  -- end.
  unfoldable pub Unwrapped : Ring → List Call → Type 0
  Unwrapped ring [] = Unit
  Unwrapped ring (put input ∷ calls) =
      Then (buf_write grant low_mark ring input)
        (λ r. (r.ring.block_realloc ≢ 0) × Unwrapped r.ring calls)
  Unwrapped ring (get n ∷ calls) =
      Then (buf_read ring n Blocking.no_block 1) (λ r. Unwrapped r.ring calls)

  run_ring-put :
      (ring : Ring) (input : List ℕ) (calls : List Call) (r : Reply) (l : List Answer)
      → buf_write grant low_mark ring input ≡ some r
      → run_ring r.ring calls ≡ some l
      → run_ring ring (put input ∷ calls) ≡ some (took r.status r.count ∷ l)
  unfolding run_ring
  run_ring-put ring input calls r l e k = ground (arith, e, k)

  run_ring-get :
      (ring : Ring) (n : ℕ) (calls : List Call) (r : Reply) (l : List Answer)
      → buf_read ring n Blocking.no_block 1 ≡ some r
      → run_ring r.ring calls ≡ some l
      → run_ring ring (get n ∷ calls) ≡ some (gave r.status r.out ∷ l)
  unfolding run_ring
  run_ring-get ring n calls r l e k = ground (arith, e, k)

  align_down-one : (n : ℕ) → align_down 1 n ≡ n
  unfolding align_down
  align_down-one zero = refl
  align_down-one (suc n) = rw (mod-one (suc n))

  one_positive : 0 < 1
  one_positive = omega arith

  wanted-Plain : (size : ℕ) (ring : Ring) (n : ℕ) → Plain size ring → wanted ring n 1 ≡ n
  wanted-Plain size ring n p = ground (arith, align_down-one n)

  -- No sequence of writes and non-blocking, unaligned reads tells a ring from the queue of the
  -- bytes that it holds: every call returns, with the status, the count and the bytes of the
  -- queue. The ring is ready, without marks, a least size or flush; memory is to be had; the bytes
  -- held and put in number less than 2^64; and no growth brings block_realloc, which doubles modulo
  -- 2^64, to 0.
  pub run_ring-run_queue :
      (calls : List Call) (size : ℕ) (ring : Ring) (xs : List ℕ)
      → Holds ring xs
      → Plain size ring
      → Ample grant low_mark size
      → length xs + put_bytes calls < 2 ^ 64
      → Unwrapped ring calls
      → run_ring ring calls ≡ some (run_queue xs calls)
  unfolding run_queue put_bytes Unwrapped
  run_ring-run_queue [] size ring xs h p ample fit more = unfold run_ring in refl
  run_ring-run_queue (put input ∷ calls) size ring xs h p ample fit more =
      let (r, ran, stored) =
        buf_write-Writes grant low_mark ring input xs h p.ready p.no_low (rw p.block_size ample)
          (omega (arith, fit)) in
      let (unwrapped, more') =
        subst (λ o. Then o (λ r. (r.ring.block_realloc ≢ 0) × Unwrapped r.ring calls)) ran more in
      let w : Writes ring xs input r = elim stored [
        | inl wrapped ↦ absurd (unwrapped wrapped)
        | inr w ↦ w
      ] in
      let rest =
        run_ring-run_queue calls size r.ring (xs ++ input) w.left (w.steady size p) ample
          (omega (arith, fit, length-append xs input)) more' in
      run_ring-put ring input calls r _ ran rest
      ∙ ap some (λ i. took (w.status i) (w.count i) ∷ run_queue (xs ++ input) calls)
  run_ring-run_queue (get n ∷ calls) size ring xs h p ample fit more =
      let all = wanted-Plain size ring n p in
      let (r, ran, t) =
        buf_read-Reads ring n Blocking.no_block 1 xs one_positive h
          (inr (refl, mod-one (0 + length xs))) in
      let t' : Reads ring n xs r = rw all at t in
      let rest =
        run_ring-run_queue calls size r.ring (drop n xs) t'.left (t'.steady size p) ample
          (omega (arith, fit, length-drop n xs))
          (subst (λ o. Then o (λ r. Unwrapped r.ring calls)) ran more) in
      let status : r.status ≡ Status.success = ground (arith, t'.status, p.no_flush) in
      run_ring-get ring n calls r _ ran rest
      ∙ ap some (λ i. gave (status i) (t'.got i) ∷ run_queue (drop n xs) calls)
