-- ===== src/ThreadPool/Init.antt =====
-- threadpool/threadpool.h: the pool that `threadpool_init` makes.
use mathlib.Core.Option
use mathlib.Core.Path.{subst}
use seakcutils.Base.{
  ℕ, zero, suc, ◌+◌, ◌*◌, ◌<◌, ◌^◌, ◌≡◌, refl, ap, none, some, true, arith, get_elem?, List, [],
  ◌∷◌, ◌++◌, length, mul_size, add_size, ◌∙◌,
}
use seakcutils.Channel.{Ring, opened}
use seakcutils.Mpmc.{SenderMpmc, ChannelMpmc, channel_create_mpmc}
use seakcutils.ThreadPool.{Job, Worker, ThreadPool, init_workers, threadpool_init, take_sender}
use seakcutils.ThreadPool.Turns.{IsReady}

abbrev Readies : List Worker → Type 0
Readies [] = Unit
Readies (w ∷ ws) = IsReady w × Readies ws

Readies-snoc : (ws : List Worker) (w : Worker) → Readies ws → IsReady w → Readies (ws ++ w ∷ [])
Readies-snoc [] w h r = (r, tt)
Readies-snoc (x ∷ ws) w h r = (h.0, Readies-snoc ws w h.1 r)

Readies-get :
    (ws : List Worker) (i : ℕ) (w : Worker) → Readies ws → get_elem? ws i ≡ some w → IsReady w
Readies-get [] i w h e = cc
Readies-get (x ∷ ws) zero w h e = subst IsReady (Option.some-injective _ _ e) h.0
Readies-get (x ∷ ws) (suc i) w h e = Readies-get ws i w h.1 e

length-snoc : (ws : List Worker) (w : Worker) → length (ws ++ w ∷ []) ≡ suc (length ws)
length-snoc [] w = refl
length-snoc (x ∷ ws) w = ap suc (length-snoc ws w)

-- The pool has a channel with this ring, this many senders and receivers, and as many workers as it
-- says, with open handles.
pub record Started (ring : Ring Job) (prods conss : ℕ) (tp : ThreadPool) : Type 0 where
  pub chan : ChannelMpmc Job
  pub made : tp.channel ≡ some chan
  pub same : chan.ring ≡ ring
  pub senders : chan.prod_cont ≡ prods
  pub receivers : chan.cons_cont ≡ conss
  pub dispatched : (x : SenderMpmc) × (tp.dispatcher ≡ some x)
  pub ready : (i : ℕ) (w : Worker) → get_elem? tp.workers i ≡ some w → IsReady w

init_workers_lem :
    (left : ℕ) (tp : ThreadPool) (chan : ChannelMpmc Job)
    → chan.prod_cont + left < 2 ^ 64
    → chan.cons_cont + left < 2 ^ 64
    → Readies tp.workers
    → (x : SenderMpmc) × (tp.dispatcher ≡ some x)
    → Started chan.ring
        (chan.prod_cont + left)
        (chan.cons_cont + left)
        (init_workers left (record tp { channel = some chan }))
      × (length (init_workers left (record tp { channel = some chan })).workers
          ≡ length tp.workers + left)
      × ((init_workers left (record tp { channel = some chan })).num_workers ≡ tp.num_workers)
unfolding init_workers
init_workers_lem zero tp chan lt lt' h d = (
  record {
    chan = chan;
    made = refl;
    same = refl;
    senders = omega arith;
    receivers = omega arith;
    dispatched = d;
    ready = λ i w e. Readies-get tp.workers i w h e;
  },
  omega arith,
  refl,
)
init_workers_lem (suc left) tp chan lt lt' h d =
    let w : Worker = record {
      receiver = some (record {
        inner_c_cap = chan.ring.capacity;
        elem_size = chan.elem_size;
        receiver_state = opened;
      });
      sender = some (record {
        inner_c_cap = chan.ring.capacity;
        elem_size = chan.elem_size;
        sender_state = opened;
      });
    } in
    let chan' : ChannelMpmc Job = record chan {
      prod_cont = add_size chan.prod_cont 1;
      cons_cont = add_size chan.cons_cont 1;
    } in
    let prods : add_size chan.prod_cont 1 ≡ chan.prod_cont + 1 = omega arith in
    let conss : add_size chan.cons_cont 1 ≡ chan.cons_cont + 1 = omega arith in
    let (st, len, num) =
      init_workers_lem left (record tp { workers = tp.workers ++ w ∷ [] }) chan'
        (omega (arith, prods, lt)) (omega (arith, conss, lt'))
        (Readies-snoc tp.workers w h (refl, (_, refl))) d in
    (
      record {
        chan = st.chan;
        made = st.made;
        same = st.same;
        senders = omega (arith, st.senders, prods);
        receivers = omega (arith, st.receivers, conss);
        dispatched = st.dispatched;
        ready = st.ready;
      },
      omega (arith, len, length-snoc tp.workers w),
      num,
    )

-- The channel of a pool of `num_threads` workers when its dispatcher is made.
abbrev pub new_channel : ℕ → ChannelMpmc Job
new_channel num_threads = record {
  ring = record {
    slots = λ i. record { elem = none; seq = i };
    capacity = num_threads * 4;
    head = 0;
    tail = 0;
    state = opened;
  };
  elem_size = 16;
  prod_cont = 0;
  cons_cont = 0;
}

pub created :
    (num_threads : ℕ)
    → num_threads * 4 < 2 ^ 64
    → channel_create_mpmc true (num_threads * 4) 16 ≡ some (new_channel num_threads)
unfolding channel_create_mpmc
created num_threads lt = refl

-- Where `malloc` gives storage for the channel and 4 * num_threads stays below 2 ^ 64,
-- `threadpool_init` gives a pool of `num_threads` workers with open receivers, whose channel is open
-- and empty, has 4 * num_threads slots, and counts num_threads + 1 senders and num_threads receivers.
pub threadpool_init-Started :
    (num_threads : ℕ)
    → num_threads * 4 < 2 ^ 64
    → Started
        (new_channel num_threads).ring
        (1 + num_threads)
        num_threads
        (threadpool_init true num_threads)
      × (length (threadpool_init true num_threads).workers ≡ num_threads)
      × ((threadpool_init true num_threads).num_workers ≡ num_threads)
unfolding threadpool_init take_sender channel_create_mpmc
threadpool_init-Started num_threads lt =
    let exact : mul_size num_threads 4 ≡ num_threads * 4 = omega arith in
    let chan : ChannelMpmc Job = record (new_channel num_threads) {
      ring = record (new_channel num_threads).ring { capacity = mul_size num_threads 4 };
      prod_cont = 1;
    } in
    let tp : ThreadPool = record {
      workers = [];
      num_workers = num_threads;
      channel = none;
      dispatcher =
          some (record {
            inner_c_cap = mul_size num_threads 4;
            elem_size = 16;
            sender_state = opened;
          });
    } in
    let (st, len, num) =
      init_workers_lem num_threads tp chan (omega arith) (omega arith) tt (_, refl) in
    (
      record {
        chan = st.chan;
        made = st.made;
        same = st.same ∙ ap (λ k. record (new_channel num_threads).ring { capacity = k }) exact;
        senders = st.senders;
        receivers = omega (arith, st.receivers);
        dispatched = st.dispatched;
        ready = st.ready;
      },
      omega (arith, len),
      num,
    )
