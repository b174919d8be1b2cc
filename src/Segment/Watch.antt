-- ===== src/Segment/Watch.antt =====
-- Machines that keep account of the bytes that a segment reads from them and writes to them, and
-- what a segment relies on.
use bingewatch.Prelude.{
  ℕ, ◌≤◌, ◌<◌, ◌≡◌, Bool, true, false, ◌||◌, Option, none, some, List, ◌++◌, take, size_mod,
}
use bingewatch.Segment.{Done, Io, Joined, Outcome, broken, fine, outcome}

-- What a segment relies on when it writes: a machine leaves the caller's buffer as it is, takes at
-- most the bytes it is given, and takes some unless it has completed or failed. An open pipe does
-- (Segment.Fifo); a machine whose side is disabled, or that answers IO_NODATA, does not
-- (Segment.Stuck).
pub record Takes {S : Type 0} (io : Io S) : Type 0 where
  pub same : (s : S) (ptr : List ℕ) (n : ℕ) → (io.write s ptr n).buf ≡ ptr
  pub at_most : (s : S) (ptr : List ℕ) (n : ℕ) → n < size_mod → (io.write s ptr n).bytes ≤ n
  pub some_bytes :
      (s : S) (ptr : List ℕ) (n : ℕ)
      → 0 < n
      → n < size_mod
      → outcome (io.write s ptr n).status ≡ fine
      → 0 < (io.write s ptr n).bytes

-- And when it reads: a machine gives at most the bytes that are asked for.
pub record Gives {S : Type 0} (io : Io S) : Type 0 where
  pub at_most : (s : S) (buf : List ℕ) (n : ℕ) → (io.read s buf n).bytes ≤ n

abbrev pub TakesIf : {S : Type 0} → Option (Io S) → Type 0
TakesIf none = Unit
TakesIf (some io) = Takes io

pub record Obeys {S : Type 0} (e : Joined S) : Type 0 where
  pub src : Gives e.src
  pub dst : Takes e.dst
  pub dst1 : TakesIf e.dst1

-- What a segment has got from its source, put into `dst` and into `dst1`, and whether one of these
-- has completed or failed in a write.
pub record Account : Type 0 where
  pub got : List ℕ
  pub put : List ℕ
  pub put1 : List ℕ
  pub ended : Bool

pub record Watched (S : Type 0) : Type 0 where
  pub inner : S
  pub account : Account

-- A read that fails gives nothing.
abbrev pub given : Outcome → ℕ → List ℕ → List ℕ
given broken n buf = take 0 buf
given _ n buf = take n buf

-- Does a write end its machine?
abbrev pub ends : Outcome → Bool
ends fine = false
ends _ = true

module _ {S : Type 0} where
  unfoldable pub watch_read : Io S → Watched S → List ℕ → ℕ → Done (Watched S)
  watch_read io w buf n =
      let r = io.read w.inner buf n in
      let a : Account = record w.account {
        got = w.account.got ++ given (outcome r.status) r.bytes r.buf;
      } in
      record {
        status = r.status;
        bytes = r.bytes;
        buf = r.buf;
        world = record { inner = r.world; account = a };
      }

  unfoldable pub watch_stop : Io S → Watched S → Watched S
  watch_stop io w = record w { inner = io.stop w.inner }

  unfoldable pub watch_write : Io S → Watched S → List ℕ → ℕ → Done (Watched S)
  watch_write io w ptr n =
      let r = io.write w.inner ptr n in
      let a : Account = record w.account {
        put = w.account.put ++ take r.bytes ptr;
        ended = w.account.ended || ends (outcome r.status);
      } in
      record {
        status = r.status;
        bytes = r.bytes;
        buf = r.buf;
        world = record { inner = r.world; account = a };
      }

  unfoldable pub watch_write1 : Io S → Watched S → List ℕ → ℕ → Done (Watched S)
  watch_write1 io w ptr n =
      let r = io.write w.inner ptr n in
      let a : Account = record w.account {
        put1 = w.account.put1 ++ take r.bytes ptr;
        ended = w.account.ended || ends (outcome r.status);
      } in
      record {
        status = r.status;
        bytes = r.bytes;
        buf = r.buf;
        world = record { inner = r.world; account = a };
      }

  unfoldable pub watch_second : Option (Io S) → Option (Io (Watched S))
  unfolding watch_read watch_write1 watch_stop
  watch_second none = none
  watch_second (some io) =
      some (record { read = watch_read io; write = watch_write1 io; stop = watch_stop io })

  -- The machines of a segment, watched.
  unfoldable pub watch : Joined S → Joined (Watched S)
  unfolding watch_read watch_stop watch_write watch_second
  watch e = record {
    src = record { read = watch_read e.src; write = watch_write e.src; stop = watch_stop e.src };
    dst = record { read = watch_read e.dst; write = watch_write e.dst; stop = watch_stop e.dst };
    dst1 = watch_second e.dst1;
  }
