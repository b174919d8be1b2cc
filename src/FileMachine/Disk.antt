-- ===== src/FileMachine/Disk.antt =====
-- What the file machine relies on in a file system: `content` is what a name holds, if it is that
-- of a file, and `file` is the name that a `FILE *` was opened with.
use bingewatch.Prelude.{
  ℕ, ◌≤◌, ◌<◌, ◌≡◌, ◌≢◌, false, Option, none, some, List, [], ◌++◌, take, length,
}
use bingewatch.FileMachine.{FileSystem}

abbrev pub Contents : Type 0 → Type 0
Contents W = W → List ℕ → Option (List ℕ)

abbrev pub FileNames : Type 0 → Type 0
FileNames W = W → ℕ → Option (List ℕ)

pub record Disk {W : Type 0} (sys : FileSystem W) (content : Contents W) (file : FileNames W)
    : Type 0 where
  pub absent : (w : W) (p : List ℕ) → sys.exists w p ≡ false → content w p ≡ none
  pub mkdir : (w : W) (p q : List ℕ) → content (sys.mkdir w p).1 q ≡ content w q
  pub close : (w : W) (f : ℕ) (q : List ℕ) → content (sys.close w f) q ≡ content w q
  pub flush : (w : W) (f : ℕ) (q : List ℕ) → content (sys.flush w f) q ≡ content w q
  pub opened :
      (w : W) (p : List ℕ) (f : ℕ)
      → (sys.open_write w p).0 ≡ some f
      → (content (sys.open_write w p).1 p ≡ some []) × (file (sys.open_write w p).1 f ≡ some p)
  pub open_other : (w : W) (p q : List ℕ) → q ≢ p → content (sys.open_write w p).1 q ≡ content w q

-- A file system that has room: `fwrite` stores some of the bytes it is given behind those that
-- the file holds.
pub record Room {W : Type 0} (sys : FileSystem W) (content : Contents W) (file : FileNames W)
    : Type 0 where
  pub some_bytes : (w : W) (f : ℕ) (ptr : List ℕ) → 0 < length ptr → 0 < (sys.write w f ptr).0
  pub at_most : (w : W) (f : ℕ) (ptr : List ℕ) → (sys.write w f ptr).0 ≤ length ptr
  pub same_file : (w : W) (f : ℕ) (ptr : List ℕ) → file (sys.write w f ptr).1 f ≡ file w f
  pub stored :
      (w : W) (f : ℕ) (ptr p c : List ℕ)
      → file w f ≡ some p
      → content w p ≡ some c
      → content (sys.write w f ptr).1 p ≡ some (c ++ take (sys.write w f ptr).0 ptr)
  pub other :
      (w : W) (f : ℕ) (ptr p q : List ℕ)
      → file w f ≡ some p
      → q ≢ p
      → content (sys.write w f ptr).1 q ≡ content w q
