-- ===== src/Args/Check/Ranges.antt =====
-- The ranges that the checks of `onyx_args_parse` establish.
use onyx_engine.Prelude.{ℕ, ◌≤◌, ◌≡◌, ◌≢◌, refl, Bool, false, ◌||◌, [], ◌∷◌, arith, tests}
use onyx_engine.Prelude.Bytes.{Bytes}
use onyx_engine.Args.Types.{ℤ, pos, negsuc, below, above, Args}
use onyx_engine.Args.Check.{is_blank, out_of_range}

-- A number from `lo` on.
pub data AtLeast (lo : ℕ) : ℤ → Type 0 where
  at_least : (n : ℕ) → lo ≤ n → AtLeast lo (pos n)

-- The ranges that the rest of the program counts on.
pub record InRange (out : Args) : Type 0 where
  pub model_given : out.model_path ≢ []
  pub port_positive : AtLeast 0 out.port
  pub port_small : above out.port 65535 ≡ false
  pub parallel : AtLeast 1 out.n_parallel
  pub reuse : AtLeast 0 out.cache_reuse
  pub batch : AtLeast 1 out.n_batch
  pub ubatch : AtLeast 1 out.n_ubatch
  pub context : AtLeast 0 out.n_ctx
  pub queue : AtLeast 0 out.max_queue
  pub tick : AtLeast 0 out.tick_tokens
  pub queue_wait : AtLeast 0 out.queue_timeout
  pub moe : AtLeast 0 out.n_cpu_moe
  pub time : AtLeast 1 out.timeout
  pub request : AtLeast 1 out.max_request_bytes

||_false : (a b : Bool) → (a || b) ≡ false → (a ≡ false) × (b ≡ false)
||_false a b h = ground arith

below-AtLeast : (z : ℤ) (n : ℕ) → below z n ≡ false → AtLeast n z
below-AtLeast (pos m) n h = at_least m (omega (tests, h))
below-AtLeast (negsuc m) n h = absurd (cc)

pub is_blank-ne : (s : Bytes) → is_blank s ≡ false → s ≢ []
is_blank-ne [] h q = absurd (cc)
is_blank-ne (c ∷ s) h q = absurd (cc)

pub ne-is_blank : (s : Bytes) → s ≢ [] → is_blank s ≡ false
ne-is_blank [] h = absurd (h refl)
ne-is_blank (c ∷ s) h = refl

-- The key and the alias apart, nothing changes behind the ranges.
abbrev pub renamed : Args → Bytes → Bytes → Args
renamed out key name = record out { api_key = key; alias = name }

pub InRange-renamed : (out : Args) (key name : Bytes) → InRange out → InRange (renamed out key name)
InRange-renamed out key name r = record {
  model_given = r.model_given;
  port_positive = r.port_positive;
  port_small = r.port_small;
  parallel = r.parallel;
  reuse = r.reuse;
  batch = r.batch;
  ubatch = r.ubatch;
  context = r.context;
  queue = r.queue;
  tick = r.tick;
  queue_wait = r.queue_wait;
  moe = r.moe;
  time = r.time;
  request = r.request;
}

pub check-InRange :
    (out : Args)
    → is_blank out.model_path ≡ false
    → out_of_range out ≡ false
    → below out.timeout 1 ≡ false
    → below out.max_request_bytes 1 ≡ false
    → InRange out
unfolding out_of_range
check-InRange out m h t b =
    let (h10, a10) = ||_false _ _ h in
    let (h9, a9) = ||_false _ _ h10 in
    let (h8, a8) = ||_false _ _ h9 in
    let (h7, a7) = ||_false _ _ h8 in
    let (h6, a6) = ||_false _ _ h7 in
    let (h5, a5) = ||_false _ _ h6 in
    let (h4, a4) = ||_false _ _ h5 in
    let (h3, a3) = ||_false _ _ h4 in
    let (h2, a2) = ||_false _ _ h3 in
    let (a0, a1) = ||_false _ _ h2 in
    record {
      model_given = is_blank-ne _ m;
      port_positive = below-AtLeast _ 0 a0;
      port_small = a1;
      parallel = below-AtLeast _ 1 a2;
      reuse = below-AtLeast _ 0 a3;
      batch = below-AtLeast _ 1 a4;
      ubatch = below-AtLeast _ 1 a5;
      context = below-AtLeast _ 0 a6;
      queue = below-AtLeast _ 0 a7;
      tick = below-AtLeast _ 0 a8;
      queue_wait = below-AtLeast _ 0 a9;
      moe = below-AtLeast _ 0 a10;
      time = below-AtLeast _ 1 t;
      request = below-AtLeast _ 1 b;
    }
