-- ===== src/Segment/Observe.antt =====
-- What an observer of the machines of a segment sees, and how a write leaves the segment.
use bingewatch.Prelude.{
  ℕ, ◌-◌, ◌≤◌, ◌≡◌, ◌≢◌, refl, sym, ap, ◌∙◌, ◌⊎◌, inl, inr, Bool, true, false, ◌||◌, Option, none,
  some, List, [], ◌∷◌, ◌++◌, append_assoc, append-nil, take, drop, arith, take_add,
}
use bingewatch.Segment.{
  Io, Joined, Segment, Callback, on_error, fail_segment, complete_segment, stop_segment,
}
use bingewatch.Segment.Watch.{
  Takes, Watched, watch, watch_read, watch_stop, watch_write, watch_write1, watch_second,
}
use bingewatch.Segment.Deliver.{View, Sees, Left, going, completed, failed}

-- One sequence begins with the other.
abbrev pub Prefix : List ℕ → List ℕ → Type 0
Prefix xs ys = (rest : List ℕ) × (ys ≡ xs ++ rest)

pub Prefix-self : (xs : List ℕ) → Prefix xs xs
Prefix-self xs = ([], sym (append-nil xs))

pub Prefix-take : (g buf : List ℕ) (c n : ℕ) → c ≤ n → Prefix (g ++ take c buf) (g ++ take n buf)
Prefix-take g buf c n le = (
  take (n - c) (drop c buf),
  rw
      (
        take_add c (n - c) n buf (omega (arith, le)),
        append_assoc g (take c buf) (take (n - c) (drop c buf)),
      )
      refl,
)

-- What `dst1` was given, where there is one.
abbrev pub Second : {S : Type 0} → Option (Io S) → (put1 got : List ℕ) → Type 0
Second none put1 got = put1 ≡ []
Second (some io) put1 got = put1 ≡ got

-- What both machines were given of what was read.
pub record Kept {S : Type 0} (dst1 : Option (Io S)) (got put put1 : List ℕ) (ended : Bool)
    : Type 0 where
  pub first : Prefix put got
  pub second : Prefix put1 got
  pub all : (ended ≡ true) ⊎ ((put ≡ got) × Second dst1 put1 got)

Second-Prefix : {S : Type 0} (d : Option (Io S)) (p g : List ℕ) → Second d p g → Prefix p g
Second-Prefix none p g e = (g, rw e refl)
Second-Prefix (some io) p g e = ([], sym (append-nil g) ∙ ap (λ x. x ++ []) (sym e))

pub Second-nil : {S : Type 0} (d : Option (Io S)) → Second d [] []
Second-nil none = refl
Second-nil (some io) = refl

-- Where the machines were given all.
pub Kept-all :
    {S : Type 0} (d : Option (Io S)) (got put put1 : List ℕ) (b : Bool)
    → put ≡ got
    → Second d put1 got
    → Kept d got put put1 b
Kept-all d got put put1 b e s = record {
  first = ([], sym (append-nil got) ∙ ap (λ x. x ++ []) (sym e));
  second = Second-Prefix d put1 got s;
  all = inr (e, s);
}

module _ {W : Type 0} where
  -- A segment that can move data: it runs, and no call-back was made.
  pub record Live (seg : Segment W) (ended : Bool) : Type 0 where
    pub running : seg.running ≡ true
    pub calls : seg.calls ≡ []
    pub ending : (ended ≡ false) ⊎ (seg.do_complete ≡ true)

  -- One that has made one call-back has stopped; one whose machine has ended is to stop.
  pub record Sound (seg : Segment W) (ended : Bool) : Type 0 where
    pub once : (seg.calls ≡ []) ⊎ ((seg.running ≡ false) × ((c : Callback) × (seg.calls ≡ c ∷ [])))
    pub closing : (ended ≡ false) ⊎ ((seg.do_complete ≡ true) ⊎ (seg.running ≡ false))

  pub Live-Sound : (seg : Segment W) (b : Bool) → Live seg b → Sound seg b
  Live-Sound seg b l = record {
    once = inl l.calls;
    closing = elim l.ending [ inl e ↦ inl e | inr e ↦ inr (inl e) ];
  }

  pub Left-Live :
      (seg seg' : Segment W) (wr : ℕ) (b b' : Bool)
      → Live seg b
      → wr ≢ 0
      → Left seg wr seg' b'
      → Live seg' (b || b')
  Left-Live seg seg' wr b b' l nz (going r d c) = record {
    running = r ∙ l.running;
    calls = c ∙ l.calls;
    ending = elim l.ending [ inl e ↦ inl (rw e refl) | inr e ↦ inr (d ∙ e) ];
  }
  Left-Live seg seg' wr b b' l nz (completed r d c) = record {
    running = r ∙ l.running;
    calls = c ∙ l.calls;
    ending = inr d;
  }
  Left-Live seg seg' wr b b' l nz (failed z r d c) = absurd (nz z)

  pub Left-Sound :
      (seg seg' : Segment W) (wr : ℕ) (b b' : Bool)
      → Live seg b
      → Left seg wr seg' b'
      → Sound seg' (b || b')
  Left-Sound seg seg' wr b b' l (going r d c) = record {
    once = inl (c ∙ l.calls);
    closing = elim l.ending [ inl e ↦ inl (rw e refl) | inr e ↦ inr (inl (d ∙ e)) ];
  }
  Left-Sound seg seg' wr b b' l (completed r d c) = record {
    once = inl (c ∙ l.calls);
    closing = inr (inl d);
  }
  Left-Sound seg seg' wr b b' l (failed z r d c) = record {
    once = inr (r, (on_error, c ∙ ap (λ x. x ++ (on_error ∷ [])) l.calls));
    closing = inr (inr r);
  }

module _ {S : Type 0} where
  -- What an observer of `dst`, and of `dst1`, sees.
  abbrev pub view_put : Watched S → View (List ℕ × List ℕ)
  view_put w = record {
    mine = w.account.put;
    other = (w.account.got, w.account.put1);
    ended = w.account.ended;
  }

  abbrev pub view_put1 : Watched S → View (List ℕ × List ℕ)
  view_put1 w = record {
    mine = w.account.put1;
    other = (w.account.got, w.account.put);
    ended = w.account.ended;
  }

  pub fail_segment-account :
      (e : Joined S) (d : Option (Io S)) (seg : Segment (Watched S))
      → e.dst1 ≡ d
      → (fail_segment (watch e) seg).world.account ≡ seg.world.account
  unfolding fail_segment stop_segment watch watch_stop watch_second
  fail_segment-account e none seg h = rw h refl
  fail_segment-account e (some io) seg h = rw h refl

  pub complete_segment-account :
      (e : Joined S) (d : Option (Io S)) (seg : Segment (Watched S))
      → e.dst1 ≡ d
      → (complete_segment (watch e) seg).world.account ≡ seg.world.account
  unfolding complete_segment stop_segment watch watch_stop watch_second
  complete_segment-account e none seg h = rw h refl
  complete_segment-account e (some io) seg h = rw h refl

  pub dst-Sees : (e : Joined S) → Sees (watch e) (watch e).dst view_put
  unfolding watch watch_write
  dst-Sees e = record {
    writes = λ w ptr n. refl;
    stops = λ seg.
        ap (λ a. record { mine = a.put; other = (a.got, a.put1); ended = a.ended })
          (fail_segment-account e e.dst1 seg refl);
  }

  abbrev pub second_io : Io S → Io (Watched S)
  second_io io = record { read = watch_read io; write = watch_write1 io; stop = watch_stop io }

  pub dst1-Sees : (e : Joined S) (io : Io S) → Sees (watch e) (second_io io) view_put1
  unfolding watch watch_write1
  dst1-Sees e io = record {
    writes = λ w ptr n. refl;
    stops = λ seg.
        ap (λ a. record { mine = a.put1; other = (a.got, a.put); ended = a.ended })
          (fail_segment-account e e.dst1 seg refl);
  }

  pub dst-Takes : (e : Joined S) → Takes e.dst → Takes (watch e).dst
  unfolding watch watch_write
  dst-Takes e t = record {
    same = λ w. t.same w.inner;
    at_most = λ w. t.at_most w.inner;
    some_bytes = λ w. t.some_bytes w.inner;
  }

  pub dst1-Takes : (io : Io S) → Takes io → Takes (second_io io)
  unfolding watch_write1
  dst1-Takes io t = record {
    same = λ w. t.same w.inner;
    at_most = λ w. t.at_most w.inner;
    some_bytes = λ w. t.some_bytes w.inner;
  }
