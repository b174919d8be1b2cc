-- ===== src/FileMachine/Transfer/Gotten.antt =====
-- What `file_read` gives of a file.
use bingewatch.Prelude.{
  ℕ, zero, suc, ◌+◌, ◌-◌, ◌%◌, ◌≤◌, ◌<◌, ◌≡◌, refl, sym, ap, ◌∙◌, inl, inr, Bool, true, false, some,
  List, [], ◌++◌, append_assoc, append-nil, take, drop, length, length-append, take-append_ge,
  drop-append_ge, min, arith, ◌==◌, ==_iff, leb, add_size, sub_size, size_mod, if-true,
  if◌then◌else◌, Bool-cases, ◌>>=◌,
}
use bingewatch.Status.{Status}
use bingewatch.FileMachine.{FileSystem, FileDesc}
use bingewatch.FileMachine.Open.{Mode}
use bingewatch.FileMachine.Open.Opening.{open_file_open}
use bingewatch.FileMachine.Transfer.{FileReply, read_ended, file_read_loop, read_opened, file_read}

-- `left` is what a file has left to read: `fread` gives the next bytes, and none only at the end.
pub record Readable {W : Type 0} (sys : FileSystem W) (left : W → ℕ → List ℕ) : Type 0 where
  pub next : (w : W) (f n : ℕ) → left w f ≡ (sys.read w f n).0 ++ left (sys.read w f n).1 f
  pub at_most : (w : W) (f n : ℕ) → length (sys.read w f n).0 ≤ n
  pub ends :
      (w : W) (f n : ℕ)
      → 0 < n
      → length (sys.read w f n).0 ≡ 0
      → (left w f ≡ []) × (left (sys.read w f n).1 f ≡ []) × (sys.eof (sys.read w f n).1 f ≡ true)

-- What a read answers that gave `got`, by whether it came to the end of the file.
abbrev pub answer : {W : Type 0} → FileDesc → W → (got buf : List ℕ) → Bool → ℕ → FileReply W
answer fd w got buf whole count = record {
  desc = fd;
  status = if whole then Status.success else Status.complete;
  count = count;
  buf = got ++ drop (length got) buf;
  world = w;
}

module _ {W : Type 0} (sys : FileSystem W) where
  loop_done :
      (fuel : ℕ) (fd : FileDesc) (w : W) (f : ℕ) (got buf : List ℕ) (bytes total : ℕ)
      → file_read_loop sys (suc fuel) fd w f got buf bytes 0 total
        ≡ some (answer fd w got buf true total)
  unfolding file_read_loop
  loop_done fuel fd w f got buf bytes total = refl

  loop_end :
      (fuel : ℕ) (fd : FileDesc) (w : W) (f : ℕ) (got buf : List ℕ) (bytes n total : ℕ)
      → (n == 0) ≡ false
      → length (sys.read w f n).0 ≡ 0
      → sys.eof (sys.read w f n).1 f ≡ true
      → file_read_loop sys (suc fuel) fd w f got buf bytes n total
        ≡ some (answer fd (sys.read w f n).1 got buf false total)
  unfolding file_read_loop read_ended
  loop_end fuel fd w f got buf bytes n total nz nothing eof =
      rw (file_read_loop, nz, nothing, eof) refl

  loop_next :
      (fuel : ℕ) (fd : FileDesc) (w : W) (f : ℕ) (got buf : List ℕ) (bytes n total n' total' : ℕ)
      → (n == 0) ≡ false
      → (length (sys.read w f n).0 == 0) ≡ false
      → sub_size n (length (sys.read w f n).0) ≡ n'
      → add_size total (length (sys.read w f n).0) ≡ total'
      → file_read_loop sys (suc fuel) fd w f got buf bytes n total
        ≡ file_read_loop sys fuel fd
            (sys.read w f n).1
            f
            (got ++ (sys.read w f n).0)
            buf
            bytes
            n'
            total'
  unfolding file_read_loop
  loop_next fuel fd w f got buf bytes n total n' total' nz some_bytes rest sum =
      rw (file_read_loop, nz, some_bytes, rest, sum) refl

module _ {W : Type 0} (sys : FileSystem W) (left : W → ℕ → List ℕ) (reads : Readable sys left) where
  answer_same :
      (fd : FileDesc) (w : W) (got got' buf : List ℕ) (whole whole' : Bool) (count count' : ℕ)
      → got ≡ got'
      → whole ≡ whole'
      → count ≡ count'
      → answer fd w got buf whole count ≡ answer fd w got' buf whole' count'
  answer_same fd w got got' buf whole whole' count count' e e' e'' = cc

  -- The chunk `l` and what is taken after it.
  after_chunk :
      (fd : FileDesc) (w : W) (got buf l m all : List ℕ) (n total : ℕ)
      → all ≡ l ++ m
      → length l ≤ n
      → answer fd w
          ((got ++ l) ++ take (n - length l) m)
          buf
          (leb (n - length l) (length m))
          (total + length l + min (n - length l) (length m))
        ≡ answer fd w (got ++ take n all) buf (leb n (length all)) (total + min n (length all))
  after_chunk fd w got buf l m all n total e le =
      let len : length all ≡ length l + length m = ap length e ∙ length-append l m in
      answer_same fd w _ _ buf _ _ _ _
        (append_assoc got l (take (n - length l) m)
          ∙ ap (λ t. got ++ t) (sym (ap (take n) e ∙ take-append_ge n l m le)))
        (ground (arith, len, le)) (ground (arith, len, le))

  file_read_loop_lem :
      (fuel : ℕ) (fd : FileDesc) (w : W) (f : ℕ) (got buf : List ℕ) (bytes n total : ℕ)
      → n < fuel
      → total + n < size_mod
      → (w' : W) × (file_read_loop sys fuel fd w f got buf bytes n total
          ≡ some (
              answer fd w'
                (got ++ take n (left w f))
                buf
                (leb n (length (left w f)))
                (total + min n (length (left w f)))))
        × (left w' f ≡ drop n (left w f))
  unfolding file_read_loop
  file_read_loop_lem zero fd w f got buf bytes n total enough fits = absurd (omega (arith, enough))
  file_read_loop_lem (suc fuel) fd w f got buf bytes zero total enough fits = (
    w,
    loop_done sys fuel fd w f got buf bytes total
        ∙ ap (λ r. some r)
            (answer_same fd w got (got ++ []) buf true (leb 0 (length (left w f))) total
              (total + min 0 (length (left w f))) (sym (append-nil got)) (ground arith)
              (omega arith)),
    refl,
  )
  file_read_loop_lem (suc fuel) fd w f got buf bytes (suc n) total enough fits =
      let r = sys.read w f (suc n) in
      let b = length r.0 in
      elim (Bool-cases (b == 0)) [
        | inl nothing ↦
            let (was, stays, eof) = reads.ends w f (suc n) (omega arith) ((==_iff b 0).0 nothing) in
            (
              r.1,
              loop_end sys fuel fd w f got buf bytes (suc n) total (ground arith)
                    ((==_iff b 0).0 nothing) eof
                  ∙ ap (λ r. some r)
                      (answer_same fd r.1 got (got ++ take (suc n) (left w f)) buf false
                        (leb (suc n) (length (left w f))) total
                        (total + min (suc n) (length (left w f)))
                        (sym (append-nil got) ∙ ap (λ l. got ++ take (suc n) l) (sym was))
                        (ground (arith, ap length was)) (omega (arith, ap length was))),
              stays ∙ ap (drop (suc n)) (sym was),
            )
        | inr some_bytes ↦
            let (w', ran, rest) =
              file_read_loop_lem fuel fd r.1 f (got ++ r.0) buf bytes (suc n - b) (total + b)
                (ground (arith, some_bytes, enough))
                (omega (arith, reads.at_most w f (suc n), fits)) in
            (
              w',
              loop_next sys fuel fd w f got buf bytes (suc n) total (suc n - b) (total + b)
                    (ground arith) some_bytes (omega (arith, reads.at_most w f (suc n), fits))
                    (omega (arith, reads.at_most w f (suc n), fits))
                  ∙ ran
                  ∙ ap (λ r. some r)
                      (after_chunk fd w' got buf r.0 (left r.1 f) (left w f) (suc n) total
                        (reads.next w f (suc n)) (reads.at_most w f (suc n))),
              rest
                  ∙ sym (
                      ap (drop (suc n)) (reads.next w f (suc n))
                      ∙ drop-append_ge (suc n) r.0 (left r.1 f) (reads.at_most w f (suc n))),
            )
      ]

  -- Where `fread` meets no error, a read of an open file with an alignment that is not 0 returns,
  -- given fuel for more calls than there are bytes: it gives
  -- the next bytes of the file, as many as make up whole alignments or as are left, tells how many
  -- these are, and answers IO_COMPLETE exactly where fewer are left than it was to read; the rest
  -- of the buffer and the descriptor stay as they were.
  pub file_read-open :
      (fuel : ℕ) (fd : FileDesc) (w : W) (f : ℕ) (buf : List ℕ) (bytes align : ℕ)
      → fd.flags.read ≡ true
      → fd.fr ≡ some f
      → 0 < align
      → bytes < fuel
      → bytes < size_mod
      → let n = bytes - bytes % align in
        let got = take n (left w f) in
        (w' : W) × (file_read sys fuel fd w buf bytes align
          ≡ some (record {
            desc = fd;
            status = if leb n (length (left w f)) then Status.success else Status.complete;
            count = min n (length (left w f));
            buf = got ++ drop (length got) buf;
            world = w';
          }))
        × (left w' f ≡ drop n (left w f))
  unfolding file_read read_opened
  file_read-open fuel fd w f buf bytes align read open_ _ enough small =
      let n = bytes - bytes % align in
      let got = take n (left w f) in
      let (w', ran, rest) =
        file_read_loop_lem fuel fd w f [] buf bytes n 0 (omega (arith, enough))
          (omega (arith, small)) in
      (
        w',
        if-true fd.flags.read _ _ read
            ∙ ap (λ x. x >>= (λ o. read_opened sys fuel o buf bytes align))
                (open_file_open sys fuel Mode.read fd w f open_)
            ∙ ap (λ x. x >>= (λ f. file_read_loop sys fuel fd w f [] buf bytes n 0)) open_
            ∙ ran
            ∙ ap (λ r. some r)
                (answer_same fd w' got got buf _ _ (0 + min n (length (left w f)))
                  (min n (length (left w f))) refl refl (omega arith)),
        rest,
      )
