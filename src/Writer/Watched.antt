-- ===== src/Writer/Watched.antt =====
-- Data that `ConnectionWrite` left is not forgotten.
use aio4c.Prelude.{
  ◌≡◌, refl, sym, ap, ◌∙◌, ◌⊎◌, inl, inr, ◌==◌, Bool, true, false, not, ◌&&◌, ◌||◌, Bool-cases,
  List, [], ◌∷◌, ◌++◌, append-nil, arith, if◌then◌else◌,
}
use mathlib.Core.Path.{subst}
use aio4c.Machine.Defs.{ok, ◌>>=◌}
use aio4c.Event.{Pointer}
use aio4c.Event.Kind.{Event, same, same_self}
use aio4c.Queue.{
  Queue, QueueItem, undefined, event_item, data_item, task_item, exit_item, enqueue_item,
}
use aio4c.Machine.Laws.{Whenever, Whenever-bind}
use aio4c.Queue.Remove.{picked, remove_all-picked}
use aio4c.Queue.Fifo.{Step, Step-fifo, Step-exit, Step-has_lock, enqueue_item-Put}
use aio4c.Connection.Kinds.{Owner}
use aio4c.Connection.{Core, connection_no_more_used}
use aio4c.Writer.{
  Action, wrote, closed, Writer, put_core, writer_remove, writer_close, write_outbound, writer_item,
}

-- Whether the last write of a connection left data, unless it was closed since.
unfoldable pub pending : Pointer → List Action → Bool
pending c [] = false
pending c (wrote d left ∷ log) = if d == c then left else pending c log
pending c (closed d freed ∷ log) = if d == c then false else pending c log

-- Whether the writer will be told to write it.
unfoldable pub told : Pointer → List QueueItem → Bool
told c [] = false
told c (event_item e d ∷ xs) = (same e Event.outbound_data && d == c) || told c xs
told c (data_item p ∷ xs) = told c xs
told c (task_item e d b ∷ xs) = told c xs
told c (exit_item ∷ xs) = told c xs
told c (undefined ∷ xs) = told c xs

told-append : (c : Pointer) (xs ys : List QueueItem) → told c (xs ++ ys) ≡ (told c xs || told c ys)
unfolding told
told-append c [] ys = refl
told-append c (event_item e d ∷ xs) ys = ground (arith, told-append c xs ys)
told-append c (data_item p ∷ xs) ys = told-append c xs ys
told-append c (task_item e d b ∷ xs) ys = told-append c xs ys
told-append c (exit_item ∷ xs) ys = told-append c xs ys
told-append c (undefined ∷ xs) ys = told-append c xs ys

-- `RemoveAll` takes nothing from the other connections.
told-picked :
    (c d : Pointer) (xs : List QueueItem)
    → (d == c) ≡ false
    → told c (picked (λ x. not (writer_remove d x)) xs) ≡ told c xs
unfolding told picked
told-picked c d [] h = refl
told-picked c d (event_item e a ∷ xs) h = elim (Bool-cases (a == d)) [
  | inl q ↦
      let other : (a == c) ≡ false = ground (arith, h) in
      rw (q, other) (ground (arith, told-picked c d xs h))
  | inr q ↦ rw q (ap (λ t. (same e Event.outbound_data && a == c) || t) (told-picked c d xs h))
]
told-picked c d (data_item p ∷ xs) h = told-picked c d xs h
told-picked c d (task_item e a b ∷ xs) h = told-picked c d xs h
told-picked c d (exit_item ∷ xs) h = told-picked c d xs h
told-picked c d (undefined ∷ xs) h = told-picked c d xs h

-- A connection with data left is in the queue, unless the queue takes no more items.
pub record Watches (c : Pointer) (w : Writer) : Type 0 where
  pub has_lock : w.queue.has_lock ≡ true
  pub watched : pending c w.log ≡ true → (told c w.queue.busy ≡ true) ⊎ (w.queue.exit ≡ true)

-- What `_Enqueue` does to what is in the queue or comes to it.
enqueue_item-told :
    (c : Pointer) (malloc done : Bool) (q q' : Queue) (x : QueueItem)
    → q.has_lock ≡ true
    → enqueue_item malloc q x ≡ ok (done, q')
    → ((told c q.busy || told c (x ∷ [])) ≡ true) ⊎ (q.exit ≡ true)
    → (told c q'.busy ≡ true) ⊎ (q'.exit ≡ true)
unfolding enqueue_item
enqueue_item-told c malloc done q q' x lock e (inr h) = inr (Step-exit (Step.put malloc done x e) h)
enqueue_item-told c malloc true q q' x lock e (inl h) =
    inl (
      ap (told c) (enqueue_item-Put malloc q x true q' e).busy
      ∙ (told-append c q.busy (x ∷ []) ∙ h))
enqueue_item-told c malloc false q q' x lock e (inl h) = inr (ground (arith, lock, e))

module _ (write : Pointer → Core → Bool × Core) (malloc : Bool) (c : Pointer) where
  writer_close-Watches :
      (d : Pointer) (w : Writer)
      → w.queue.has_lock ≡ true
      → (pending c w.log ≡ true → (told c w.queue.busy ≡ true) ⊎ (w.queue.exit ≡ true))
      → Watches c (writer_close d w)
  unfolding writer_close pending
  writer_close-Watches d w lock h =
      subst
        (λ (r : Bool × Queue × Unit).
          Watches c (record (put_core d (connection_no_more_used Owner.writer (w.cores d)).1 w) {
            queue = r.1;
            log = closed d (connection_no_more_used Owner.writer (w.cores d)).0 ∷ w.log;
          }))
        (sym (remove_all-picked (writer_remove d) (λ x s. s) w.queue tt))
        (record {
          has_lock = lock;
          watched = λ p. elim (Bool-cases (d == c)) [
            | inl q ↦ absurd (ground (arith, p, q))
            | inr q ↦ elim (h (ground (arith, p, q))) [
              | inl t ↦ inl (told-picked c d w.queue.busy q ∙ t)
              | inr t ↦ inr t
            ]
          ];
        })

  written :
      (d : Pointer) (w : Writer)
      → w.queue.has_lock ≡ true
      → (pending c w.log ≡ true → ((told c w.queue.busy || d == c) ≡ true) ⊎ (w.queue.exit ≡ true))
      → Whenever (Watches c) (write_outbound write malloc d w)
  unfolding write_outbound pending told
  written d w lock h = go (write d (w.cores d)).0
    where
      still :
          pending c (wrote d true ∷ w.log) ≡ true
          → ((told c w.queue.busy || told c (event_item Event.outbound_data d ∷ [])) ≡ true)
            ⊎ (w.queue.exit ≡ true)
      still p = elim (Bool-cases (d == c)) [
        | inl q ↦ inl (ground (arith, same_self Event.outbound_data, q))
        | inr q ↦ elim (h (ground (arith, p, q))) [
          | inl t ↦ inl (ground (arith, t, q))
          | inr t ↦ inr t
        ]
      ]

      go :
          (left : Bool)
          → Whenever (Watches c) (
              let w' = record (put_core d (write d (w.cores d)).1 w) {
                log = wrote d left ∷ w.log;
              } in
              if left
              then (enqueue_item malloc w.queue (event_item Event.outbound_data d) >>= λ (done, q).
                  ok (record w' { queue = q }))
              else ok w')
      go true =
          Whenever-bind (Watches c) (enqueue_item malloc w.queue (event_item Event.outbound_data d))
            _
            λ (done, q) e. record {
              has_lock =
                  Step-has_lock (Step.put malloc done (event_item Event.outbound_data d) e) ∙ lock;
              watched = λ p.
                  enqueue_item-told c malloc done w.queue q (event_item Event.outbound_data d) lock
                    e (still p);
            }
      go false = record {
        has_lock = lock;
        watched = λ p. elim (Bool-cases (d == c)) [
          | inl q ↦ absurd (ground (arith, p, q))
          | inr q ↦ elim (h (ground (arith, p, q))) [
            | inl t ↦ inl (ground (arith, t, q))
            | inr t ↦ inr t
          ]
        ];
      }

  -- The switch, on an item that is taken out of the queue.
  writer_item-Watches :
      (x : QueueItem) (w : Writer)
      → w.queue.has_lock ≡ true
      → (pending c w.log ≡ true → (told c (x ∷ w.queue.busy) ≡ true) ⊎ (w.queue.exit ≡ true))
      → Whenever (λ (r : Bool × Writer). Watches c r.1) (writer_item write malloc x w)
  unfolding writer_item told
  writer_item-Watches exit_item w lock h = record { has_lock = lock; watched = h }
  writer_item-Watches (data_item p) w lock h = record { has_lock = lock; watched = h }
  writer_item-Watches (task_item e d b) w lock h = record { has_lock = lock; watched = h }
  writer_item-Watches undefined w lock h = record { has_lock = lock; watched = h }
  writer_item-Watches (event_item e d) w lock h =
      go (same e Event.outbound_data) (same e Event.close) h
    where
      go :
          (outbound close : Bool)
          → (pending c w.log ≡ true
              → (((outbound && d == c) || told c w.queue.busy) ≡ true) ⊎ (w.queue.exit ≡ true))
          → Whenever
              (λ (r : Bool × Writer). Watches c r.1)
              (if outbound
                then (write_outbound write malloc d w >>= λ w'. ok (true, w'))
                else ok (true, if close then writer_close d w else w))
      go false true h = writer_close-Watches d w lock h
      go false false h = record { has_lock = lock; watched = h }
      go true close h =
          Whenever-bind (λ (r : Bool × Writer). Watches c r.1) (write_outbound write malloc d w) _
            λ w' e.
              subst (Whenever (Watches c)) e (
                written d w lock
                  λ p. elim (h p) [ inl t ↦ inl (ground (arith, t)) | inr t ↦ inr t ])

-- The writer between the other threads: they put items in its queue, its calls of `Dequeue` take an item
-- out or none, and it serves the item that it took.
pub data Serves (write : Pointer → Core → Bool × Core) (w : Writer) : Writer → Type 0 where
  begun : Serves write w w
  handed :
      (v : Writer) (q : Queue) (malloc done : Bool) (x : QueueItem)
      → Serves write w v
      → enqueue_item malloc v.queue x ≡ ok (done, q)
      → Serves write w (record v { queue = q })
  idle :
      (v : Writer) (q : Queue)
      → Serves write w v
      → Step v.queue q [] []
      → Serves write w (record v { queue = q })
  served :
      {v' : Writer} (v : Writer) (q : Queue) (x : QueueItem) (malloc more : Bool)
      → Serves write w v
      → Step v.queue q [] (x ∷ [])
      → writer_item write malloc x (record v { queue = q }) ≡ ok (more, v')
      → Serves write w v'

-- However the writer and the threads that hand it items interleave, as long as none aborts for want of memory, also if
-- connections are closed: where the last `ConnectionWrite` of a connection left data and the connection was not
-- closed since, the writer will be told to write it: an event for that is in its queue, unless the queue is closed.
pub Serves-Watches :
    (write : Pointer → Core → Bool × Core) (c : Pointer) {w v : Writer}
    → Watches c w
    → Serves write w v
    → Watches c v
unfolding told
Serves-Watches write c h begun = h
Serves-Watches write c h (handed v q malloc done x r e) =
    let s = Serves-Watches write c h r in
    record {
      has_lock = Step-has_lock (Step.put malloc done x e) ∙ s.has_lock;
      watched = λ p.
          enqueue_item-told c malloc done v.queue q x s.has_lock e
            (elim (s.watched p) [ inl t ↦ inl (ground (arith, t)) | inr t ↦ inr t ]);
    }
Serves-Watches write c h (idle v q r st) =
    let s = Serves-Watches write c h r in
    record {
      has_lock = Step-has_lock st ∙ s.has_lock;
      watched = λ p. elim (s.watched p) [
        | inl t ↦ inl (ap (told c) (Step-fifo st ∙ append-nil v.queue.busy) ∙ t)
        | inr t ↦ inr (Step-exit st t)
      ];
    }
Serves-Watches write c h (served v q x malloc more r st e) =
    let s = Serves-Watches write c h r in
    subst (Whenever (λ (a : Bool × Writer). Watches c a.1)) e (
      writer_item-Watches write malloc c x (record v { queue = q }) (Step-has_lock st ∙ s.has_lock)
        λ p. elim (s.watched p) [
          | inl t ↦ inl (ap (told c) (Step-fifo st ∙ append-nil v.queue.busy) ∙ t)
          | inr t ↦ inr (Step-exit st t)
        ])
