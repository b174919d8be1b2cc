-- ===== src/FileMachine/Samples.antt =====
-- Small file systems that keep what the theorems of the file machine rely on.
use bingewatch.Prelude.{
  ℕ, suc, ◌<◌, ◌≡◌, ◌≢◌, refl, sym, ap, ◌∙◌, Bool, true, false, Option, none, some, List, [], ◌∷◌,
  ◌++◌, take, drop, length, length-take, take-append-drop, drop_all, min, arith, ◌==◌,
  if◌then◌else◌, if-true, if-false, Bool-cases, inl, inr,
}
use bingewatch.Machine.{same_name}
use bingewatch.FileMachine.{FileSystem, slash}
use bingewatch.FileMachine.Dirs.Made.{Directories, Names}
use bingewatch.FileMachine.Disk.{Disk, Room}
use bingewatch.FileMachine.Transfer.Gotten.{Readable}

-- Whether the one directory that there is has been made; a name that ends in `/` cannot be made.
abbrev ends_slash : List ℕ → Bool
ends_slash [] = false
ends_slash (c ∷ []) = c == slash
ends_slash (c ∷ d ∷ cs) = ends_slash (d ∷ cs)

abbrev make_one : Bool → List ℕ → Bool × Bool
make_one true p = (false, true)
make_one false p = if ends_slash p then (false, false) else (true, true)

abbrev pub one_dir : FileSystem Bool
one_dir = record {
  exists = λ w p. w;
  is_dir = λ w p. w;
  mkdir = make_one;
  open_write = λ w p. (none, w);
  open_read = λ w p. (none, w);
  close = λ w f. w;
  write = λ w f ptr. (0, w);
  flush = λ w f. w;
  read = λ w f n. ([], w);
  eof = λ w f. true;
  strftime = λ w fmt. [];
}

make_one-made : (w : Bool) (p : List ℕ) → (make_one w p).0 ≡ true → (make_one w p).1 ≡ true
make_one-made true p e = refl
make_one-made false p e = ground (arith, e)

make_one-taken : (w : Bool) (p : List ℕ) → w ≡ true → (make_one w p).0 ≡ false
make_one-taken true p e = refl
make_one-taken false p e = absurd cc

make_one-stay : (w : Bool) (p : List ℕ) → w ≡ true → (make_one w p).1 ≡ true
make_one-stay true p e = refl
make_one-stay false p e = absurd cc

pub one_dir-Directories : Directories one_dir
one_dir-Directories = record { made = make_one-made; stay = λ w p q e. make_one-stay w p e }

pub one_dir-Names : Names one_dir
one_dir-Names = record { slash_same = λ w p. refl; taken = make_one-taken }

-- Files by name, and the name that was opened last; `fwrite` takes two bytes at a time.
pub record Files : Type 0 where
  pub held : List ℕ → Option (List ℕ)
  pub current : Option (List ℕ)

same_name_refl : (p : List ℕ) → same_name p p ≡ true
unfolding same_name
same_name_refl [] = refl
same_name_refl (c ∷ p) = ground (arith, same_name_refl p)

eq_of_same_name : (p q : List ℕ) → same_name p q ≡ true → p ≡ q
unfolding same_name
eq_of_same_name [] [] e = refl
eq_of_same_name [] (d ∷ q) e = absurd cc
eq_of_same_name (c ∷ p) [] e = absurd cc
eq_of_same_name (c ∷ p) (d ∷ q) e = ground (arith, e, eq_of_same_name p q)

-- `p` is made to hold `c`.
abbrev held_put : (List ℕ → Option (List ℕ)) → (p c : List ℕ) → List ℕ → Option (List ℕ)
held_put held p c q = if same_name q p then some c else held q

held_put_same : (held : List ℕ → Option (List ℕ)) (p c : List ℕ) → held_put held p c p ≡ some c
held_put_same held p c = if-true _ _ _ (same_name_refl p)

held_put_other :
    (held : List ℕ → Option (List ℕ)) (p c q : List ℕ) → q ≢ p → held_put held p c q ≡ held q
held_put_other held p c q other = elim (Bool-cases (same_name q p)) [
  | inl e ↦ absurd (other (eq_of_same_name q p e))
  | inr e ↦ if-false _ _ _ e
]

abbrev content_or_nil : Option (List ℕ) → List ℕ
content_or_nil none = []
content_or_nil (some c) = c

abbrev append_to : Option (List ℕ) → Files → List ℕ → Files
append_to none w ptr = w
append_to (some p) w ptr = record w {
  held = held_put w.held p (content_or_nil (w.held p) ++ take 2 ptr);
}

abbrev is_held : Option (List ℕ) → Bool
is_held none = false
is_held (some c) = true

abbrev pub files : FileSystem Files
files = record {
  exists = λ w p. is_held (w.held p);
  is_dir = λ w p. true;
  mkdir = λ w p. (false, w);
  open_write = λ w p. (some 7, record { held = held_put w.held p []; current = some p });
  open_read = λ w p. (none, w);
  close = λ w f. w;
  write = λ w f ptr. (min 2 (length ptr), append_to w.current w ptr);
  flush = λ w f. w;
  read = λ w f n. ([], w);
  eof = λ w f. true;
  strftime = λ w fmt. [];
}

abbrev pub held_in : Files → List ℕ → Option (List ℕ)
held_in w p = w.held p

abbrev pub opened_as : Files → ℕ → Option (List ℕ)
opened_as w f = w.current

is_held-none : (o : Option (List ℕ)) → is_held o ≡ false → o ≡ none
is_held-none none e = refl
is_held-none (some c) e = absurd cc

pub files-Disk : Disk files held_in opened_as
files-Disk = record {
  absent = λ w p e. is_held-none (w.held p) e;
  mkdir = λ w p q. refl;
  close = λ w f q. refl;
  flush = λ w f q. refl;
  opened = λ w p f e. (held_put_same w.held p [], refl);
  open_other = λ w p q other. held_put_other w.held p [] q other;
}

take_two : (ptr : List ℕ) → take 2 ptr ≡ take (min 2 (length ptr)) ptr
take_two [] = refl
take_two (a ∷ []) = refl
take_two (a ∷ b ∷ ptr) = let m : min 2 (suc (suc (length ptr))) ≡ 2 = omega arith in rw m refl

append_to_current :
    (cur : Option (List ℕ)) (w : Files) (ptr : List ℕ) → (append_to cur w ptr).current ≡ w.current
append_to_current none w ptr = refl
append_to_current (some p) w ptr = refl

append_to_stored :
    (cur : Option (List ℕ)) (w : Files) (ptr p c : List ℕ)
    → cur ≡ some p
    → w.held p ≡ some c
    → (append_to cur w ptr).held p ≡ some (c ++ take 2 ptr)
append_to_stored none w ptr p c e holds = absurd cc
append_to_stored (some p') w ptr p c e holds =
    let same : p' ≡ p = cc in
    rw same (
      held_put_same w.held p (content_or_nil (w.held p) ++ take 2 ptr)
      ∙ ap (λ o. some (content_or_nil o ++ take 2 ptr)) holds)

append_to_other :
    (cur : Option (List ℕ)) (w : Files) (ptr p q : List ℕ)
    → cur ≡ some p
    → q ≢ p
    → (append_to cur w ptr).held q ≡ w.held q
append_to_other none w ptr p q e other = refl
append_to_other (some p') w ptr p q e other =
    let same : p' ≡ p = cc in
    rw same (held_put_other w.held p (content_or_nil (w.held p) ++ take 2 ptr) q other)

pub files-Room : Room files held_in opened_as
files-Room = record {
  some_bytes = λ w f ptr pos. omega (arith, pos);
  at_most = λ w f ptr. omega arith;
  same_file = λ w f ptr. append_to_current w.current w ptr;
  stored = λ w f ptr p c at holds.
      append_to_stored w.current w ptr p c at holds ∙ ap (λ l. some (c ++ l)) (take_two ptr);
  other = λ w f ptr p q at other. append_to_other w.current w ptr p q at other;
}

-- A file that is read two bytes at a time.
abbrev is_nil : List ℕ → Bool
is_nil [] = true
is_nil (x ∷ xs) = false

abbrev pub one_file : FileSystem (List ℕ)
one_file = record {
  exists = λ w p. true;
  is_dir = λ w p. true;
  mkdir = λ w p. (false, w);
  open_write = λ w p. (none, w);
  open_read = λ w p. (some 7, w);
  close = λ w f. w;
  write = λ w f ptr. (0, w);
  flush = λ w f. w;
  read = λ w f n. (take (min n 2) w, drop (min n 2) w);
  eof = λ w f. is_nil w;
  strftime = λ w fmt. [];
}

abbrev pub left_of : List ℕ → ℕ → List ℕ
left_of w f = w

one_file-ends :
    (w : List ℕ) (n : ℕ)
    → 0 < n
    → length (take (min n 2) w) ≡ 0
    → (w ≡ []) × (drop (min n 2) w ≡ []) × (is_nil (drop (min n 2) w) ≡ true)
one_file-ends [] n pos e =
    let nothing : drop {A = ℕ} (min n 2) [] ≡ [] = drop_all (min n 2) [] (omega arith) in
    (refl, nothing, ap is_nil nothing)
one_file-ends (x ∷ w) n pos e = absurd (omega (arith, pos, e, length-take (min n 2) (x ∷ w)))

pub one_file-Readable : Readable one_file left_of
one_file-Readable = record {
  next = λ w f n. sym (take-append-drop (min n 2) w);
  at_most = λ w f n. omega (arith, length-take (min n 2) w);
  ends = λ w f n pos e. one_file-ends w n pos e;
}

-- A disk that is full.
abbrev pub full_disk : FileSystem Files
full_disk = record files { write = λ w f ptr. (0, w) }
