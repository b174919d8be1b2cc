-- ===== src/Ring/Trim.antt =====
-- The cells that a read leaves behind, whole or in part.
use bingewatch.Prelude.{
  ℕ, ◌-◌, ◌<◌, ◌≡◌, ◌∙◌, ◌++◌, arith, length, take, drop, length-take, length-drop, length-append,
  take-drop, take-length_append,
}
use bingewatch.Block.{Cell}
use bingewatch.Ring.Blocks.{IsFilled, IsBlank, payload}

-- The cell that a partial read leaves.
abbrev pub trimmed : Cell → ℕ → Cell
trimmed c n = record c {
  bytes_at = take (c.bytes - n) (drop n c.bytes_at) ++ drop (c.bytes - n) c.bytes_at;
  bytes = c.bytes - n;
}

abbrev pub emptied : Cell → Cell
emptied c = record c { bytes = c.bytes - c.bytes }

pub length-payload : (c : Cell) → IsFilled c → length (payload c) ≡ c.bytes
length-payload c f = omega (arith, length-take c.bytes c.bytes_at, f.fits, f.allocated)

pub emptied-IsBlank : (c : Cell) → IsFilled c → IsBlank (emptied c)
emptied-IsBlank c f = record {
  no_bytes = omega arith;
  room = omega (arith, f.some_bytes, f.fits);
  allocated = f.allocated;
}

pub trimmed-IsFilled : (c : Cell) (n : ℕ) → IsFilled c → n < c.bytes → IsFilled (trimmed c n)
trimmed-IsFilled c n f h = record {
  some_bytes = omega arith;
  fits = omega (arith, f.fits);
  allocated = omega (
    arith,
    length-append (take (c.bytes - n) (drop n c.bytes_at)) (drop (c.bytes - n) c.bytes_at),
    length-take (c.bytes - n) (drop n c.bytes_at),
    length-drop n c.bytes_at,
    length-drop (c.bytes - n) c.bytes_at,
    f.fits,
    f.allocated,
  );
}

-- The `memmove` keeps the unread bytes.
pub payload-trimmed :
    (c : Cell) (n : ℕ) → IsFilled c → n < c.bytes → payload (trimmed c n) ≡ drop n (payload c)
payload-trimmed c n f h =
    let k = c.bytes - n in
    let kept = take k (drop n c.bytes_at) in
    let e : length kept ≡ k =
      omega
        (arith, length-take k (drop n c.bytes_at), length-drop n c.bytes_at, f.fits, f.allocated) in
    let whole : take (length kept) (kept ++ drop k c.bytes_at) ≡ kept =
      take-length_append kept (drop k c.bytes_at) in
    (rw e at whole) ∙ take-drop n c.bytes k c.bytes_at (omega arith)
