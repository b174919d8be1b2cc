-- ===== src/Segment/PassOn.antt =====
-- The end of a round: what the machines get of what was read, where all before it was passed on.
use bingewatch.Prelude.{
  ℕ, ◌≤◌, ◌<◌, ◌≡◌, refl, ap, ◌∙◌, ◌⊎◌, inl, inr, Bool, true, false, ◌||◌, Option, none, some, List,
  [], ◌++◌, take, ◌==◌, ==_iff, size_mod, Bool-cases, Option-cases, arith,
}
use mathlib.Core.Path.{subst}
use bingewatch.Segment.{Io, Joined, Segment, write_to_dest, pass_on, Run}
use bingewatch.Segment.Watch.{Takes, TakesIf, Obeys, Account, Watched, watch, watch_second}
use bingewatch.Segment.Deliver.{seeing, Delivered, write_to_dest_lem}
use bingewatch.Segment.Observe.{
  Prefix-take, Second, Kept, Live, Sound, Left-Live, Left-Sound, view_put, view_put1, dst-Sees,
  dst1-Sees, dst-Takes, dst1-Takes, second_io,
}

or_true : (b : Bool) → b || true ≡ true
or_true true = refl
or_true false = refl

-- `pass_on` once it is known what the writes leave.
module _ {W : Type 0} (fuel : ℕ) (e : Joined W) where
  pass_on_one :
      (seg : Segment W) (buf : List ℕ) (n : ℕ) (out : ℕ × List ℕ × Segment W)
      → e.dst1 ≡ none
      → write_to_dest fuel e e.dst seg buf n ≡ some out
      → pass_on fuel e seg buf n ≡ some (record { segment = out.2; buf = some out.1 })
  unfolding pass_on
  pass_on_one seg buf n out one eq = rw (pass_on, eq, one) refl

  module _ (io : Io W) where
    pass_on_nothing :
        (seg : Segment W) (buf : List ℕ) (n : ℕ) (out : ℕ × List ℕ × Segment W)
        → e.dst1 ≡ some io
        → write_to_dest fuel e e.dst seg buf n ≡ some out
        → (out.0 == 0) ≡ true
        → pass_on fuel e seg buf n ≡ some (record { segment = out.2; buf = some out.1 })
    unfolding pass_on
    pass_on_nothing seg buf n out one eq z = rw (pass_on, eq, one, z) refl

    pass_on_two :
        (seg : Segment W) (buf : List ℕ) (n : ℕ) (out out2 : ℕ × List ℕ × Segment W)
        → e.dst1 ≡ some io
        → write_to_dest fuel e e.dst seg buf n ≡ some out
        → (out.0 == 0) ≡ false
        → write_to_dest fuel e io out.2 out.1 n ≡ some out2
        → pass_on fuel e seg buf n ≡ some (record { segment = out2.2; buf = some out2.1 })
    unfolding pass_on
    pass_on_two seg buf n out out2 one eq z eq2 = rw (pass_on, eq) (simp (one, z, eq2))

module _ {S : Type 0} where
  abbrev pub account : Segment (Watched S) → Account
  account seg = seg.world.account

  -- The machines were given what they were to be, and the segment is in order.
  pub record Good (e : Joined S) (r : Run (Watched S)) : Type 0 where
    pub kept :
        Kept e.dst1
          (account r.segment).got
          (account r.segment).put
          (account r.segment).put1
          (account r.segment).ended
    pub sound : Sound r.segment (account r.segment).ended
    pub buffer : (buf : List ℕ) × (r.buf ≡ some buf)

  -- Once `n` bytes of `buf` have been read, and all that was read before was passed on.
  pub record Input (e : Joined S) (g : List ℕ) (seg : Segment (Watched S)) (buf : List ℕ) (n : ℕ)
      : Type 0 where
    pub got : (account seg).got ≡ g ++ take n buf
    pub put : (account seg).put ≡ g
    pub put1 : Second e.dst1 (account seg).put1 g
    pub ended : (account seg).ended ≡ false
    pub live : Live seg false

  -- Once `dst` has been written to.
  record Half (g : List ℕ) (seg : Segment (Watched S)) (buf : List ℕ) (n c : ℕ) (p1 : List ℕ)
      (b : Bool) : Type 0 where
    count : c ≤ n
    got : (account seg).got ≡ g ++ take n buf
    put : (account seg).put ≡ g ++ take c buf
    put1 : (account seg).put1 ≡ p1
    ended : (account seg).ended ≡ b
    full : (b ≡ true) ⊎ (c ≡ n)

  half :
      (e : Joined S) (g : List ℕ) (seg : Segment (Watched S)) (buf : List ℕ) (n : ℕ)
      (out : ℕ × List ℕ × Segment (Watched S))
      → Input e g seg buf n
      → (d : Delivered view_put seg [] buf n 0 out)
      → Half g out.2 buf n d.count (account seg).put1 d.ended
  half e g seg buf n out i d = record {
    count = d.at_most;
    got = ap (λ v. v.other.0) d.seen ∙ i.got;
    put = ap (λ v. v.mine) d.seen ∙ rw i.put refl;
    put1 = ap (λ v. v.other.1) d.seen;
    ended = ap (λ v. v.ended) d.seen ∙ rw i.ended refl;
    full = elim (Bool-cases d.ended) [ inl x ↦ inl x | inr x ↦ inr (d.all x).0 ];
  }

  -- With no second machine, a round ends here.
  Half-Kept-none :
      (d : Option (Io S)) (g : List ℕ) (seg : Segment (Watched S)) (buf : List ℕ) (n c : ℕ)
      (b : Bool)
      → d ≡ none
      → Half g seg buf n c [] b
      → let a = account seg in Kept d a.got a.put a.put1 a.ended
  Half-Kept-none d g seg buf n c b one h =
      rw (one, h.got, h.put, h.put1, h.ended)
        (record {
          first = Prefix-take g buf c n h.count;
          second = (g ++ take n buf, refl);
          all = elim h.full [ inl x ↦ inl x | inr x ↦ inr (rw x refl, refl) ];
        })

  -- Neither does `dst1` get anything where `dst` has ended.
  Half-Kept-ended :
      (d : Option (Io S)) (g : List ℕ) (seg : Segment (Watched S)) (buf : List ℕ) (n c : ℕ)
      → Half g seg buf n c g true
      → let a = account seg in Kept d a.got a.put a.put1 a.ended
  Half-Kept-ended d g seg buf n c h =
      rw (h.got, h.put, h.put1, h.ended)
        (record {
          first = Prefix-take g buf c n h.count;
          second = (take n buf, refl);
          all = inl refl;
        })

  abbrev pub Passes : ℕ → Joined S → Segment (Watched S) → List ℕ → ℕ → Type 0
  Passes fuel e seg buf n =
      (r : Run (Watched S)) × (pass_on fuel (watch e) seg buf n ≡ some r) × Good e r

  alone :
      (fuel : ℕ) (e : Joined S) (g : List ℕ) (seg : Segment (Watched S)) (buf : List ℕ) (n : ℕ)
      → e.dst1 ≡ none
      → Takes e.dst
      → Input e g seg buf n
      → n < fuel
      → n < size_mod
      → Passes fuel e seg buf n
  unfolding watch watch_second
  alone fuel e g seg buf n one takes i enough small =
      let (out, eq, d) =
        write_to_dest_lem (watch e) (watch e).dst view_put (dst-Takes e takes) (dst-Sees e) fuel seg
          buf n enough small in
      let h = half e g seg buf n out i d in
      let p1 : (account seg).put1 ≡ [] = subst (λ x. Second x (account seg).put1 g) one i.put1 in
      let h' : Half g out.2 buf n d.count [] d.ended =
        subst (λ p. Half g out.2 buf n d.count p d.ended) p1 h in
      let left : Sound out.2 d.ended = Left-Sound seg out.2 out.0 false d.ended i.live d.left in
      (
        record { segment = out.2; buf = some out.1 },
        pass_on_one fuel (watch e) seg buf n out (ap watch_second one) eq,
        record {
          kept = Half-Kept-none e.dst1 g out.2 buf n d.count d.ended one h';
          sound = rw h.ended left;
          buffer = (out.1, refl);
        },
      )

  -- `dst1` after `dst`.
  seen_put1 :
      (e : Joined S) (g : List ℕ) (seg seg2 : Segment (Watched S)) (buf : List ℕ) (n c c2 : ℕ)
      (b b2 : Bool)
      → Half g seg buf n c g b
      → view_put1 seg2.world ≡ seeing (view_put1 seg.world) (take c2 buf) b2
      → c2 ≤ n
      → (b2 ≡ true) ⊎ (c2 ≡ n)
      → (d : Option (Io S)) → (io : Io S) → d ≡ some io
      → ((account seg2).ended ≡ b || b2)
        × (let a = account seg2 in Kept d a.got a.put a.put1 a.ended)
  seen_put1 e g seg seg2 buf n c c2 b b2 h seen le full d io one =
      let got : (account seg2).got ≡ g ++ take n buf = ap (λ v. v.other.0) seen ∙ h.got in
      let put : (account seg2).put ≡ g ++ take c buf = ap (λ v. v.other.1) seen ∙ h.put in
      let put1 : (account seg2).put1 ≡ g ++ take c2 buf = ap (λ v. v.mine) seen ∙ rw h.put1 refl in
      let ended : (account seg2).ended ≡ b || b2 = ap (λ v. v.ended) seen ∙ rw h.ended refl in
      (
        ended,
        rw (got, put, put1, ended, one)
            (record {
              first = Prefix-take g buf c n h.count;
              second = Prefix-take g buf c2 n le;
              all = elim h.full [
                | inl x ↦ inl (rw x refl)
                | inr x ↦ elim full [
                  | inl y ↦ inl (rw y (or_true b))
                  | inr y ↦ inr (rw x refl, rw y refl)
                ]
              ];
            }),
      )

  both :
      (fuel : ℕ) (e : Joined S) (g : List ℕ) (seg : Segment (Watched S)) (buf : List ℕ) (n : ℕ)
      (io : Io S)
      → e.dst1 ≡ some io
      → Takes e.dst
      → Takes io
      → Input e g seg buf n
      → 0 < n
      → n < fuel
      → n < size_mod
      → Passes fuel e seg buf n
  unfolding watch watch_second
  both fuel e g seg buf n io one takes takes1 i some_bytes enough small =
      let (out, eq, d) =
        write_to_dest_lem (watch e) (watch e).dst view_put (dst-Takes e takes) (dst-Sees e) fuel seg
          buf n enough small in
      let h = half e g seg buf n out i d in
      let p1 : (account seg).put1 ≡ g = subst (λ x. Second x (account seg).put1 g) one i.put1 in
      let h' : Half g out.2 buf n d.count g d.ended =
        subst (λ p. Half g out.2 buf n d.count p d.ended) p1 h in
      elim (Bool-cases (out.0 == 0)) [
        | inl z ↦
            let zero_bytes : out.0 ≡ 0 = (==_iff out.0 0).0 z in
            let over : d.ended ≡ true = elim (Bool-cases d.ended) [
              | inl x ↦ x
              | inr x ↦ absurd (omega (arith, (d.all x).1, zero_bytes, some_bytes))
            ] in
            (
              record { segment = out.2; buf = some out.1 },
              pass_on_nothing fuel (watch e) (second_io io) seg buf n out (ap watch_second one) eq
                  z,
              record {
                kept =
                    Half-Kept-ended e.dst1 g out.2 buf n d.count
                      (subst (λ b. Half g out.2 buf n d.count g b) over h');
                sound = rw h.ended (Left-Sound seg out.2 out.0 false d.ended i.live d.left);
                buffer = (out.1, refl);
              },
            )
        | inr z ↦
            let live : Live out.2 d.ended =
              Left-Live seg out.2 out.0 false d.ended i.live (λ x. absurd (ground (arith, x, z)))
                d.left in
            let (out2, eq2, d2) =
              write_to_dest_lem (watch e) (second_io io) view_put1 (dst1-Takes io takes1)
                (dst1-Sees e io) fuel out.2 out.1 n enough small in
            let seen : view_put1 out2.2.world
                ≡ seeing (view_put1 out.2.world) (take d2.count buf) d2.ended =
              d2.seen ∙ rw d.buffer refl in
            let (ended, kept) =
              seen_put1 e g out.2 out2.2 buf n d.count d2.count d.ended d2.ended h' seen d2.at_most
                (elim (Bool-cases d2.ended) [ inl x ↦ inl x | inr x ↦ inr (d2.all x).0 ]) e.dst1 io
                one in
            (
              record { segment = out2.2; buf = some out2.1 },
              pass_on_two fuel (watch e) (second_io io) seg buf n out out2 (ap watch_second one) eq
                  z eq2,
              record {
                kept = kept;
                sound = rw ended (Left-Sound out.2 out2.2 out2.0 d.ended d2.ended live d2.left);
                buffer = (out2.1, refl);
              },
            )
      ]

  pub pass_on_lem :
      (fuel : ℕ) (e : Joined S) (g : List ℕ) (seg : Segment (Watched S)) (buf : List ℕ) (n : ℕ)
      → Obeys e
      → Input e g seg buf n
      → 0 < n
      → n < fuel
      → n < size_mod
      → Passes fuel e seg buf n
  pass_on_lem fuel e g seg buf n o i some_bytes enough small = elim (Option-cases e.dst1) [
    | inl one ↦ alone fuel e g seg buf n one o.dst i enough small
    | inr (io, one) ↦
        both fuel e g seg buf n io one o.dst (subst TakesIf one o.dst1) i some_bytes enough small
  ]
