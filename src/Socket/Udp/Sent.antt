-- ===== src/Socket/Udp/Sent.antt =====
-- The datagrams that `udp_write` sends.
use bingewatch.Prelude.{
  ℕ, zero, suc, ◌+◌, ◌-◌, ◌*◌, ◌≤◌, ◌<◌, ◌≡◌, refl, sym, ap, ◌∙◌, ◌⊎◌, inl, inr, false, Option,
  some, List, [], ◌∷◌, ◌++◌, append_assoc, append-nil, take, drop, take-append-drop, length,
  length-take, length-drop, drop_all, arith, ◌==◌, add_size, sub_size, size_mod, if-false, All,
  ◌>>=◌,
}
use bingewatch.Status.{Status}
use bingewatch.Socket.{Network, Sock, Sockets, get_socket}
use bingewatch.Socket.Udp.{datagram_size, datagram_size_bounds, send_loop, sent_reply, udp_write}

-- What UDP does: a datagram is sent whole or not at all; `log` is what has been sent.
pub record Datagrams {W : Type 0} (net : Network W) (log : W → List (List ℕ)) : Type 0 where
  pub whole : (w : W) (fd : ℕ) (d : List ℕ) → (net.sendto w fd d).0 ≡ some (length d)
  pub logged : (w : W) (fd : ℕ) (d : List ℕ) → log (net.sendto w fd d).1 ≡ log w ++ (d ∷ [])

abbrev pub concat : List (List ℕ) → List ℕ
concat [] = []
concat (d ∷ ds) = d ++ concat ds

-- `ds` are datagrams of 1 to `payload` bytes that make up `input`, no more than it takes.
pub record Splits (payload : ℕ) (input : List ℕ) (ds : List (List ℕ)) : Type 0 where
  pub whole : concat ds ≡ input
  pub sized : All (λ d. (0 < length d) × (length d ≤ payload)) ds
  pub few : length ds * payload < length input + payload

pub concat_none :
    (payload : ℕ) (ds : List (List ℕ))
    → All (λ d. (0 < length d) × (length d ≤ payload)) ds
    → concat ds ≡ []
    → ds ≡ []
concat_none payload [] sized e = refl
concat_none payload ([] ∷ ds) sized e = absurd (omega (arith, sized.0))
concat_none payload ((x ∷ d) ∷ ds) sized e = absurd cc

Splits-nil : (payload : ℕ) (ptr : List ℕ) → 0 < payload → length ptr ≡ 0 → Splits payload ptr []
Splits-nil payload [] pos e = record { whole = refl; sized = tt; few = omega (arith, pos) }
Splits-nil payload (x ∷ ptr) pos e = absurd (omega (arith, e))

-- The number of datagrams, where the next one is full and where it is the last one.
few_next :
    (payload b left : ℕ) (ptr : List ℕ) (ds : List (List ℕ))
    → 0 < b
    → left ≡ length ptr - b
    → b ≤ length ptr
    → (b ≡ payload) ⊎ (ds ≡ [])
    → length ds * payload < left + payload
    → suc (length ds) * payload < length ptr + payload
few_next payload b left ptr ds pos e le (inl full) few = omega (arith, pos, e, le, full, few)
few_next payload b left ptr ds pos e le (inr last) few = rw last (omega (arith, pos, e, le))

-- The datagram that is sent next, and those after it.
Splits-next :
    (payload b : ℕ) (ptr : List ℕ) (ds : List (List ℕ))
    → 0 < b
    → b ≤ payload
    → b ≤ length ptr
    → (b ≡ payload) ⊎ (b ≡ length ptr)
    → Splits payload (drop b ptr) ds
    → Splits payload ptr (take b ptr ∷ ds)
Splits-next payload b ptr ds pos le le' full rest = record {
  whole = ap (λ l. take b ptr ++ l) rest.whole ∙ take-append-drop b ptr;
  sized = (
    (omega (arith, length-take b ptr, pos, le'), omega (arith, length-take b ptr, le)),
    rest.sized,
  );
  few =
      few_next payload b (length (drop b ptr)) ptr ds pos (length-drop b ptr) le'
        (elim full [
          | inl e ↦ inl e
          | inr e ↦
              inr
                (concat_none payload ds rest.sized (rest.whole ∙ drop_all b ptr (omega (arith, e))))
        ])
        rest.few;
}

last : {b payload n k : ℕ} → (b ≡ payload) ⊎ (b ≡ n) → n ≡ k → (b ≡ payload) ⊎ (b ≡ k)
last (inl e) all = inl e
last (inr e) all = inr (e ∙ all)

udp_write_runs :
    {W : Type 0} (net : Network W) (fuel : ℕ) (s : Sockets) (w : W) (h : ℕ) (k : Sock)
    (buf : List ℕ) (n : ℕ) (w' : W)
    → get_socket s h ≡ some (some k)
    → k.held ≡ false
    → send_loop net fuel k.fd k.payload_size w buf (length buf) 0 ≡ some (some n, w')
    → udp_write net fuel s w h buf
      ≡ some (record { sockets = s; status = Status.success; count = n; buf = buf; world = w' })
unfolding udp_write sent_reply
udp_write_runs net fuel s w h k buf n w' found open_ ran =
    rw found (if-false k.held _ _ open_ ∙ ap (λ o. o >>= (λ r. some (sent_reply s h buf r))) ran)

module _ {W : Type 0} (net : Network W) (log : W → List (List ℕ)) (udp : Datagrams net log) where
  send_loop_next :
      (fuel fd payload : ℕ) (w : W) (ptr : List ℕ) (n written n' written' : ℕ)
      → let b = datagram_size payload n in
        (n == 0) ≡ false
        → length (take b ptr) ≡ b
        → sub_size n b ≡ n'
        → add_size written b ≡ written'
        → send_loop net (suc fuel) fd payload w ptr n written
          ≡ send_loop net fuel fd payload (net.sendto w fd (take b ptr)).1 (drop b ptr) n' written'
  unfolding send_loop
  send_loop_next fuel fd payload w ptr n written n' written' nz whole rest sum =
      let b = datagram_size payload n in
      let sent : (net.sendto w fd (take b ptr)).0 ≡ some b =
        udp.whole w fd (take b ptr) ∙ ap (λ k. some k) whole in
      rw (send_loop, nz, sent, rest, sum) refl

  Sends : W → (payload : ℕ) → (ptr : List ℕ) → (written : ℕ) → Option (Option ℕ × W) → Type 0
  Sends w payload ptr written r =
      (ds : List (List ℕ)) × (w' : W) × (r ≡ some (some (written + length ptr), w'))
      × (log w' ≡ log w ++ ds)
      × Splits payload ptr ds

  send_loop_lem :
      (fuel fd payload : ℕ) (w : W) (ptr : List ℕ) (n written : ℕ)
      → 0 < payload
      → n ≡ length ptr
      → n < fuel
      → written + n < size_mod
      → Sends w payload ptr written (send_loop net fuel fd payload w ptr n written)
  unfolding Sends send_loop
  send_loop_lem zero fd payload w ptr n written pos all enough fits = absurd (omega (arith, enough))
  send_loop_lem (suc fuel) fd payload w ptr zero written pos all enough fits = (
    [],
    w,
    ap {A = ℕ} (λ t. some (some t, w)) (omega (arith, all)),
    sym (append-nil (log w)),
    Splits-nil payload ptr pos (sym all),
  )
  send_loop_lem (suc fuel) fd payload w ptr (suc n) written pos all enough fits =
      let b = datagram_size payload (suc n) in
      let (b_pos, le, le', full) = datagram_size_bounds payload (suc n) pos (omega arith) in
      let w' = (net.sendto w fd (take b ptr)).1 in
      let taken : length (take b ptr) ≡ b = omega (arith, length-take b ptr, le', all) in
      let (ds, w'', ran, sent, splits) =
        send_loop_lem fuel fd payload w' (drop b ptr) (suc n - b) (written + b) pos
          (omega (arith, length-drop b ptr, all)) (omega (arith, b_pos, enough))
          (omega (arith, le', fits)) in
      (
        take b ptr ∷ ds,
        w'',
        send_loop_next fuel fd payload w ptr (suc n) written (suc n - b) (written + b)
              (ground arith) taken (omega (arith, le', fits)) (omega (arith, le', fits))
            ∙ ran
            ∙ ap {A = ℕ} (λ t. some (some t, w'')) (omega (arith, length-drop b ptr, all, le')),
        sent
            ∙ ap (λ l. l ++ ds) (udp.logged w fd (take b ptr))
            ∙ append_assoc (log w) (take b ptr ∷ []) ds,
        Splits-next payload b ptr ds b_pos le (omega (arith, le', all)) (last full all) splits,
      )

  -- Where datagrams are sent whole, a write to a socket that is on the list and not locked returns,
  -- given a payload size that is not 0 and fuel for more calls than there are bytes: it sends the
  -- bytes in order, in datagrams of 1 to that size and no more than it takes, answers IO_SUCCESS
  -- and tells that all were written.
  pub udp_write-Splits :
      (fuel : ℕ) (s : Sockets) (w : W) (h : ℕ) (k : Sock) (buf : List ℕ)
      → get_socket s h ≡ some (some k)
      → k.held ≡ false
      → 0 < k.payload_size
      → length buf < fuel
      → length buf < size_mod
      → (ds : List (List ℕ)) × (w' : W) × (udp_write net fuel s w h buf
          ≡ some (record {
            sockets = s;
            status = Status.success;
            count = length buf;
            buf = buf;
            world = w';
          }))
        × (log w' ≡ log w ++ ds)
        × Splits k.payload_size buf ds
  unfolding Sends
  udp_write-Splits fuel s w h k buf found open_ pos enough small =
      let (ds, w', ran, sent, splits) =
        send_loop_lem fuel k.fd k.payload_size w buf (length buf) 0 pos refl enough
          (omega (arith, small)) in
      (
        ds,
        w',
        udp_write_runs net fuel s w h k buf (length buf) w' found open_
            (ran ∙ ap {A = ℕ} (λ t. some (some t, w')) (omega arith)),
        sent,
        splits,
      )
