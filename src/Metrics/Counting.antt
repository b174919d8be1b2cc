-- ===== src/Metrics/Counting.antt =====
-- src/machine-metrics.c: the counters lose nothing, whenever they are read out.
use bingewatch.Prelude.{
  ℕ, ◌+◌, ◌%◌, ◌≡◌, refl, ap, ◌∙◌, Bool, true, false, List, [], ◌∷◌, size_mod, Bool-cases, inl, inr,
  ltb, ◌==◌, if◌then◌else◌, arith,
}
use bingewatch.Metrics.{
  Metrics, Count, add_totals, count_call, machine_metrics_update, machine_metrics_print,
  machine_metrics_update_fn, metrics_fn, machine_metrics_create,
}

-- What happens to the counters: a read or write reports its bytes, one of the two signals is
-- raised, or the counters are read out.
pub data Event : Type 0 where
  report : (req_bytes : ℕ) → (rec_bytes : ℕ) → Event
  signal : (update : Bool) → (print : Bool) → Event
  update print : Event

pub handle : Metrics → Event → Metrics
unfolding metrics_fn machine_metrics_update machine_metrics_print
handle m (Event.report req rec) = metrics_fn m req rec
handle m (Event.signal u p) = record m { update_signal = u; print_signal = p }
handle m Event.update = machine_metrics_update m
handle m Event.print = machine_metrics_print m

pub handle_all : Metrics → List Event → Metrics
unfolding handle
handle_all m [] = m
handle_all m (e ∷ es) = handle_all (handle m e) es

-- The sums of what was reported.
pub asked : List Event → ℕ
asked [] = 0
asked (Event.report req rec ∷ es) = req + asked es
asked (_ ∷ es) = asked es

pub received : List Event → ℕ
received [] = 0
received (Event.report req rec ∷ es) = rec + received es
received (_ ∷ es) = received es

pub calls : List Event → ℕ
calls [] = 0
calls (Event.report req rec ∷ es) = 1 + calls es
calls (_ ∷ es) = calls es

-- The bytes and the calls of a counter and of what was added to its totals.
pub seen_bytes : Count → ℕ
seen_bytes c = c.total_bytes + c.bytes

pub seen_calls : Count → ℕ
seen_calls c = c.total_count + c.count

abbrev Sees : Metrics → ℕ → ℕ → ℕ → Type 0
Sees m a r n =
    (seen_bytes m.req % size_mod ≡ a % size_mod)
    × (seen_bytes m.rec % size_mod ≡ r % size_mod)
    × (seen_calls m.req % size_mod ≡ n % size_mod)

if-Sees :
    (b : Bool) (x y : Metrics) (a r n : ℕ)
    → Sees x a r n
    → Sees y a r n
    → Sees (if b then x else y) a r n
if-Sees true x y a r n hx hy = hx
if-Sees false x y a r n hx hy = hy

machine_metrics_update-Sees :
    (m : Metrics) (a r n : ℕ) → Sees m a r n → Sees (machine_metrics_update m) a r n
unfolding machine_metrics_update add_totals seen_bytes seen_calls
machine_metrics_update-Sees m a r n s = (omega (arith, s), omega (arith, s), omega (arith, s))

machine_metrics_print-Sees :
    (m : Metrics) (a r n : ℕ) → Sees m a r n → Sees (machine_metrics_print m) a r n
unfolding machine_metrics_print
machine_metrics_print-Sees m a r n s =
    if-Sees (m.n_calc == 0) _ _ a r n (machine_metrics_update-Sees m a r n s) s

count_call-Sees :
    (bytes a : ℕ) (c : Count)
    → seen_bytes c % size_mod ≡ a % size_mod
    → seen_bytes (count_call bytes c) % size_mod ≡ (bytes + a) % size_mod
unfolding count_call seen_bytes
count_call-Sees bytes a c s = omega (arith, s)

count_call_one :
    (bytes n : ℕ) (c : Count)
    → seen_calls c % size_mod ≡ n % size_mod
    → seen_calls (count_call bytes c) % size_mod ≡ (1 + n) % size_mod
unfolding count_call seen_calls
count_call_one bytes n c s = omega (arith, s)

-- `rec` is left alone where nothing was received.
received-Sees :
    (bytes r : ℕ) (c : Count)
    → seen_bytes c % size_mod ≡ r % size_mod
    → seen_bytes (if ltb 0 bytes then count_call bytes c else c) % size_mod ≡ (bytes + r) % size_mod
received-Sees bytes r c s = elim (Bool-cases (ltb 0 bytes)) [
  | inl e ↦ rw e (count_call-Sees bytes r c s)
  | inr e ↦ let z : bytes ≡ 0 = ground arith in rw (e, z) (s ∙ ap (λ x. x % size_mod) (omega arith))
]

machine_metrics_update_fn-Sees :
    (m : Metrics) (q b a r n : ℕ)
    → Sees m a r n
    → Sees (machine_metrics_update_fn m q b) (q + a) (b + r) (1 + n)
unfolding machine_metrics_update_fn
machine_metrics_update_fn-Sees m q b a r n s =
    let asked : Metrics = record m {
      req = count_call q m.req;
      rec = if ltb 0 b then count_call b m.rec else m.rec;
    } in
    let sees : Sees asked (q + a) (b + r) (1 + n) =
      (count_call-Sees q a m.req s.0, received-Sees b r m.rec s.1, count_call_one q n m.req s.2) in
    let after : Metrics = if asked.update_signal then machine_metrics_update asked else asked in
    let sees' : Sees after (q + a) (b + r) (1 + n) =
      if-Sees asked.update_signal _ _ (q + a) (b + r) (1 + n)
        (machine_metrics_update-Sees asked (q + a) (b + r) (1 + n) sees) sees in
    if-Sees after.print_signal _ _ (q + a) (b + r) (1 + n)
      (machine_metrics_print-Sees after (q + a) (b + r) (1 + n) sees') sees'

Sees-same :
    (a a' r r' n n' : ℕ) (m : Metrics) → Sees m a r n → a ≡ a' → r ≡ r' → n ≡ n' → Sees m a' r' n'
Sees-same a a' r r' n n' m s e f g = (rw e at s.0, rw f at s.1, rw g at s.2)

handle_all-Sees :
    (es : List Event) (m : Metrics) (a r n : ℕ)
    → Sees m a r n
    → Sees (handle_all m es) (asked es + a) (received es + r) (calls es + n)
unfolding handle_all handle asked received calls metrics_fn
handle_all-Sees [] m a r n s =
    Sees-same a (0 + a) r (0 + r) n (0 + n) m s (omega arith) (omega arith) (omega arith)
handle_all-Sees (Event.report q b ∷ es) m a r n s =
    let h =
      handle_all-Sees es (metrics_fn m q b) (q + a) (b + r) (1 + n)
        (machine_metrics_update_fn-Sees (record m { started = true }) q b a r n s) in
    Sees-same _ (q + asked es + a) _ (b + received es + r) _ (1 + calls es + n)
      (handle_all (metrics_fn m q b) es) h (omega arith) (omega arith) (omega arith)
handle_all-Sees (Event.signal u p ∷ es) m a r n s = handle_all-Sees es _ a r n s
handle_all-Sees (Event.update ∷ es) m a r n s =
    handle_all-Sees es _ a r n (machine_metrics_update-Sees m a r n s)
handle_all-Sees (Event.print ∷ es) m a r n s =
    handle_all-Sees es _ a r n (machine_metrics_print-Sees m a r n s)

-- From fresh counters, after any sequence of reports, signals and read-outs, the bytes asked for,
-- the bytes received and the number of calls that the counters and the totals hold between them
-- are the sums of what was reported, modulo 2^64.
pub handle_all-conserves :
    (es : List Event)
    → (seen_bytes (handle_all machine_metrics_create es).req % size_mod ≡ asked es % size_mod)
      × (seen_bytes (handle_all machine_metrics_create es).rec % size_mod ≡ received es % size_mod)
      × (seen_calls (handle_all machine_metrics_create es).req % size_mod ≡ calls es % size_mod)
unfolding machine_metrics_create seen_bytes seen_calls
handle_all-conserves es =
    let s : Sees machine_metrics_create 0 0 0 = (refl, refl, refl) in
    let h = handle_all-Sees es machine_metrics_create 0 0 0 s in
    (omega (arith, h), omega (arith, h), omega (arith, h))
