-- ===== src/Stream/Registry.antt =====
-- src/stream.c: the list of streams, and the array of a stream's segments.
use bingewatch.Prelude.{
  ℕ, ◌+◌, ◌*◌, ◌%◌, ◌^◌, ◌<◌, ◌≤◌, ◌≡◌, ◌≢◌, ◌↔◌, refl, ap, ◌∙◌, none, some, length, length-append,
  find_key, update_key, IsKeyed, find_key-fresh, find_key_head, find_key-append_none,
  find_key-append_other, append-IsKeyed, find_key-update_some, find_key-update_other, [], ◌∷◌, ◌++◌,
  arith,
}
use bingewatch.Stream.{
  State, StreamStatus, Joined, Stream, Streams, id_mod, get_stream, open_stream, new_stream,
  with_stream, add_segment, create_segment_1_1, io_stream_add_segment,
}

-- The handles in the list were all given out by the counter, and none twice.
unfoldable pub Registered : Streams → Type 0
Registered all = IsKeyed (λ s. s.id) all.stream_counter all.streams

open_stream-get_stream :
    (all : Streams) (id : ℕ)
    → Registered all
    → id ≡ all.stream_counter + 1
    → (get_stream all (open_stream all id).0 ≡ none)
      × ((s : Stream) × (get_stream (open_stream all id).1 (open_stream all id).0 ≡ some s)
          × (s.state ≡ State.init)
          × (s.segments ≡ [])
          × (s.status ≡ StreamStatus.success))
      × ((h : ℕ)
          → h ≢ (open_stream all id).0
          → get_stream (open_stream all id).1 h ≡ get_stream all h)
      × Registered (open_stream all id).1
unfolding get_stream open_stream Registered
open_stream-get_stream all id reg e =
    let gone : find_key (λ s. s.id) id all.streams ≡ none =
      find_key-fresh (λ s. s.id) all.stream_counter id all.streams reg (omega (arith, e)) in
    (
      gone,
      (
        _,
        find_key-append_none (λ s. s.id) id all.streams _ gone
            ∙ find_key_head (λ s. s.id) id _ [] refl,
        refl,
        refl,
        refl,
      ),
      (λ h ne. find_key-append_other (λ s. s.id) h all.streams _ (omega (arith, ne))),
      append-IsKeyed (λ s. s.id) all.stream_counter all.streams _ reg (omega (arith, e)),
    )

-- Before the counter, an `int`, has come to 2^31 - 1, `new_stream` returns a handle that no stream
-- had and under which the new stream is found, in state INIT, with no segments and with status
-- STREAM_SUCCESS; every other handle finds what it found before, and the handles stay distinct.
pub new_stream-get_stream :
    (all : Streams)
    → Registered all
    → all.stream_counter + 1 < 2 ^ 31
    → (get_stream all (new_stream all).0 ≡ none)
      × ((s : Stream) × (get_stream (new_stream all).1 (new_stream all).0 ≡ some s)
          × (s.state ≡ State.init)
          × (s.segments ≡ [])
          × (s.status ≡ StreamStatus.success))
      × ((h : ℕ) → h ≢ (new_stream all).0 → get_stream (new_stream all).1 h ≡ get_stream all h)
      × Registered (new_stream all).1
unfolding new_stream
new_stream-get_stream all reg small =
    open_stream-get_stream all ((all.stream_counter + 1) % id_mod) reg (omega (arith, small))

create_segment_1_1-id : (i o : ℕ) (s : Stream) → (create_segment_1_1 s i o).id ≡ s.id
unfolding create_segment_1_1 add_segment
create_segment_1_1-id i o s = refl

with_stream-some :
    (all : Streams) (h : ℕ) (f : Stream → Stream) (s : Stream)
    → get_stream all h ≡ some s
    → with_stream all h f ≡ (0, record all { streams = update_key (λ s. s.id) h f all.streams })
unfolding with_stream
with_stream-some all h f s e = rw (e, with_stream) refl

with_stream-none :
    (all : Streams) (h : ℕ) (f : Stream → Stream)
    → get_stream all h ≡ none
    → with_stream all h f ≡ (1, all)
unfolding with_stream
with_stream-none all h f e = rw (e, with_stream) refl

-- `io_stream_add_segment` on a handle that has a stream returns 0 and adds the segment to that
-- stream alone; on a handle that has none it returns 1 and changes nothing.
pub io_stream_add_segment-get_stream :
    (all : Streams) (h i o : ℕ)
    → ((s : Stream)
        → get_stream all h ≡ some s
        → ((io_stream_add_segment all h i o).0 ≡ 0)
          × (get_stream (io_stream_add_segment all h i o).1 h ≡ some (create_segment_1_1 s i o))
          × ((g : ℕ) → h ≢ g → get_stream (io_stream_add_segment all h i o).1 g ≡ get_stream all g))
      × (get_stream all h ≡ none → io_stream_add_segment all h i o ≡ (1, all))
unfolding get_stream io_stream_add_segment
io_stream_add_segment-get_stream all h i o = (
  (λ s e.
      let at = with_stream-some all h (λ s. create_segment_1_1 s i o) s e in
      (
        ap (λ r. r.0) at,
        ap (λ r. get_stream r.1 h) at
            ∙ find_key-update_some (λ s. s.id) h (λ s. create_segment_1_1 s i o) all.streams s
                (λ x at. create_segment_1_1-id i o x ∙ at) e,
        (λ g ne.
            ap (λ r. get_stream r.1 g) at
            ∙ find_key-update_other (λ s. s.id) h g (λ s. create_segment_1_1 s i o) all.streams
                (λ x at. create_segment_1_1-id i o x ∙ at) ne),
      )),
  (λ e. with_stream-none all h (λ s. create_segment_1_1 s i o) e),
)

-- What `add_segment` keeps: the entries are counted, there is room for them by the source's
-- count, and the memory asked for is `sizeof(int)` for each.
unfoldable pub Counted : Stream → Type 0
Counted s =
    (length s.segments ≡ s.n_segment)
    × (s.n_segment ≤ s.segment_len)
    × (s.segment_bytes ≡ 4 * s.segment_len)

-- `add_segment` appends its segment, and keeps the count and the array's recorded length
-- right; the memory that was asked for holds every pointer exactly when the array has at most
-- half as many as its recorded length.
pub add_segment-Counted :
    (s : Stream) (seg : Joined)
    → Counted s
    → ((add_segment s seg).segments ≡ s.segments ++ (seg ∷ []))
      × Counted (add_segment s seg)
      × ((8 * (add_segment s seg).n_segment ≤ (add_segment s seg).segment_bytes)
          ↔ (2 * (add_segment s seg).n_segment ≤ (add_segment s seg).segment_len))
unfolding add_segment Counted
add_segment-Counted s seg c =
    let len : length (s.segments ++ (seg ∷ [])) ≡ s.n_segment + 1 =
      length-append s.segments (seg ∷ []) ∙ ap (λ n. n + 1) c.0 in
    (refl, (len, ground arith, ground arith), ground arith)
