-- ===== src/Middleware/RateLimit/Refinement.antt =====
-- The limiter decides as one that never forgets a request.
use better_auth_rs_worker.Prelude.{
  ℕ, ◌≤◌, ◌<◌, ◌^◌, String, ◌≡◌, refl, Bool, true, false, not, List, [], ◌∷◌, ◌++◌, if◌then◌else◌,
  ltb, get_or, filter, length, arith, ◌==◌, eq_iff, is_none, filter-append, filter-filter_all,
  length-append, Bool-cases, inl, inr, length-filter-le, sym, ◌∙◌, ap,
}
use mathlib.Core.Path.{subst, ap₂}
use better_auth_rs_worker.HashMap.{get}
use better_auth_rs_worker.HashMap.Laws.{get-insert, get-insert_self}
use better_auth_rs_worker.Entity.{Instant}
use better_auth_rs_worker.Http.{AuthRequest}
use better_auth_rs_worker.Middleware.RateLimit.{
  RateLimitConfig, EndpointRateLimit, Buckets, before_request, settle, bucket_key, limit_for_path,
  in_window, is_full,
}

-- A request and the time at which it comes.
abbrev pub Arrival : Type 0
Arrival = Instant × AuthRequest

-- The specification keeps the times of all requests that it let through, and lets a request through
-- while fewer than `max_requests` of them lie in the window.
unfoldable pub allows : EndpointRateLimit → Instant → List Instant → Bool
allows limit now history =
    ltb (length (filter (in_window limit.window now) history)) limit.max_requests

-- The decisions of the specification on the arrivals with the key `k`.
unfoldable pub spec_decisions : EndpointRateLimit → String → List Arrival → List Instant → List Bool
spec_decisions limit k [] history = []
spec_decisions limit k ((now, req) ∷ rest) history =
    let here = allows limit now history in
    let next = spec_decisions limit k rest (if here then history ++ now ∷ [] else history) in
    let skip = spec_decisions limit k rest history in
    if bucket_key req == k then here ∷ next else skip

-- The decisions of the middleware on the arrivals with the key `k`.
module _ (to_string : ℕ → String) (config : RateLimitConfig) (k : String) where
  unfoldable pub decisions : List Arrival → Buckets → List Bool
  decisions [] buckets = []
  decisions ((now, req) ∷ rest) buckets =
      let (response, buckets') = before_request to_string config req now buckets in
      let later = decisions rest buckets' in
      if bucket_key req == k then is_none response ∷ later else later

-- The clock does not run backwards.
abbrev pub Increasing : Instant → List Arrival → Type 0
Increasing last [] = Unit
Increasing last ((now, req) ∷ rest) = (last ≤ now) × Increasing now rest

-- The arrivals with the key `k` all ask for the path `p`.
abbrev pub SamePath : String → String → List Arrival → Type 0
SamePath k p [] = Unit
SamePath k p ((now, req) ∷ rest) = (bucket_key req ≡ k → req.path ≡ p) × SamePath k p rest

-- The bucket holds the part of the history that the window still shows, and is not overfull.
record Shows (limit : EndpointRateLimit) (now : Instant) (history bucket : List Instant)
    : Type 0 where
  recent : filter (in_window limit.window now) bucket ≡ filter (in_window limit.window now) history
  room : length bucket ≤ limit.max_requests

module _ (limit : EndpointRateLimit) (last now : Instant) (history bucket : List Instant)
    (le : last ≤ now) (h : Shows limit last history bucket) where
  shrinks :
      (xs : List Instant)
      → filter (in_window limit.window now) (filter (in_window limit.window last) xs)
        ≡ filter (in_window limit.window now) xs
  shrinks xs =
      filter-filter_all (in_window limit.window now) (in_window limit.window last) xs
        (λ t e. ground arith)

  recent_later :
      filter (in_window limit.window now) bucket ≡ filter (in_window limit.window now) history
  recent_later =
      sym (shrinks bucket) ∙ ap (filter (in_window limit.window now)) h.recent ∙ shrinks history

  again :
      (xs : List Instant)
      → filter (in_window limit.window now) (filter (in_window limit.window now) xs)
        ≡ filter (in_window limit.window now) xs
  again xs =
      filter-filter_all (in_window limit.window now) (in_window limit.window now) xs (λ t e. e)

  decides :
      limit.max_requests < 2 ^ 32
      → is_full limit (filter (in_window limit.window now) bucket) ≡ not (allows limit now history)
  unfolding allows
  decides small = rw recent_later (
      ground (
        arith,
        h.room,
        length-filter-le (in_window limit.window now) bucket,
        ap length recent_later,
      ))

  waits : Shows limit now history bucket
  waits = record { recent = recent_later; room = h.room }

  blocked : Shows limit now history (filter (in_window limit.window now) bucket)
  blocked = record {
    recent = again bucket ∙ recent_later;
    room = omega (arith, h.room, length-filter-le (in_window limit.window now) bucket);
  }

  passed :
      allows limit now history ≡ true
      → Shows limit now
          (history ++ now ∷ [])
          (filter (in_window limit.window now) bucket ++ now ∷ [])
  unfolding allows
  passed ok = record {
    recent =
        filter-append (in_window limit.window now) (filter (in_window limit.window now) bucket)
          (now ∷ [])
        ∙ ap (λ xs. xs ++ filter (in_window limit.window now) (now ∷ []))
            (again bucket ∙ recent_later)
        ∙ sym (filter-append (in_window limit.window now) history (now ∷ []));
    room = ground (
      arith,
      length-append (filter (in_window limit.window now) bucket) (now ∷ []),
      ap length recent_later,
    );
  }

bucket_of : String → Buckets → List Instant
bucket_of k buckets = get_or (get k buckets) []

module _ (to_string : ℕ → String) (limit : EndpointRateLimit) (now : Instant)
    (timestamps : List Instant) (buckets : Buckets) where
  settle_other :
      (key k : String)
      → (key == k) ≡ false
      → bucket_of k (settle to_string limit key now timestamps buckets).1 ≡ bucket_of k buckets
  unfolding settle bucket_of
  settle_other key k ne = elim (Bool-cases (is_full limit timestamps)) [
    | inl f ↦ ground (arith, get-insert key k timestamps buckets)
    | inr f ↦ ground (arith, get-insert key k (timestamps ++ now ∷ []) buckets)
  ]

  settle_own :
      (k : String)
      → (is_none (settle to_string limit k now timestamps buckets).0
          ≡ not (is_full limit timestamps))
        × (bucket_of k (settle to_string limit k now timestamps buckets).1
            ≡ (if is_full limit timestamps then timestamps else timestamps ++ now ∷ []))
  unfolding settle bucket_of
  settle_own k = elim (Bool-cases (is_full limit timestamps)) [
    | inl f ↦ (ground arith, ground (arith, get-insert_self k timestamps buckets))
    | inr f ↦ (ground arith, ground (arith, get-insert_self k (timestamps ++ now ∷ []) buckets))
  ]

module _ (to_string : ℕ → String) (config : RateLimitConfig) (k p : String) (now : Instant)
    (req : AuthRequest) (buckets : Buckets) where
  other_key :
      (bucket_key req == k) ≡ false
      → bucket_of k (before_request to_string config req now buckets).1 ≡ bucket_of k buckets
  unfolding before_request limit_for_path
  other_key ne =
      let limit = limit_for_path config req.path in
      let timestamps = filter (in_window limit.window now) (bucket_of (bucket_key req) buckets) in
      elim (Bool-cases config.enabled) [
        | inl on ↦
            unfold bucket_of in
            rw (on, before_request)
              (settle_other to_string limit now timestamps buckets (bucket_key req) k ne)
        | inr off ↦ rw (off, before_request) refl
      ]

  own_key :
      config.enabled ≡ true
      → bucket_key req ≡ k
      → req.path ≡ p
      → let limit = limit_for_path config p in
        let kept = filter (in_window limit.window now) (bucket_of k buckets) in
        (is_none (before_request to_string config req now buckets).0 ≡ not (is_full limit kept))
        × (bucket_of k (before_request to_string config req now buckets).1
            ≡ (if is_full limit kept then kept else kept ++ now ∷ []))
  unfolding before_request bucket_of limit_for_path
  own_key on e e' =
      let limit = limit_for_path config p in
      rw (on, before_request, e, e')
        (settle_own to_string limit now (filter (in_window limit.window now) (bucket_of k buckets))
          buckets k)

decisions_refine :
    (to_string : ℕ → String) (config : RateLimitConfig) (k p : String) (last : Instant)
    (arrivals : List Arrival) (history : List Instant) (buckets : Buckets)
    → config.enabled ≡ true
    → (limit_for_path config p).max_requests < 2 ^ 32
    → Increasing last arrivals
    → SamePath k p arrivals
    → Shows (limit_for_path config p) last history (bucket_of k buckets)
    → decisions to_string config k arrivals buckets
      ≡ spec_decisions (limit_for_path config p) k arrivals history
unfolding decisions spec_decisions
decisions_refine to_string config k p last [] history buckets on small up same h = refl
decisions_refine to_string config k p last ((now, req) ∷ rest) history buckets on small up same h =
    let limit = limit_for_path config p in
    let kept = filter (in_window limit.window now) (bucket_of k buckets) in
    let buckets' = (before_request to_string config req now buckets).1 in
    elim (Bool-cases (bucket_key req == k)) [
      | inr ne ↦ rw ne (
          decisions_refine to_string config k p now rest history buckets' on small up.1 same.1 (
            rw (other_key to_string config k p now req buckets ne)
              (waits limit last now history (bucket_of k buckets) up.0 h)))
      | inl eq ↦
          let key = (eq_iff (bucket_key req) k).0 eq in
          let (answer, left) = own_key to_string config k p now req buckets on key (same.0 key) in
          let agree = decides limit last now history (bucket_of k buckets) up.0 h small in
          elim (Bool-cases (allows limit now history)) [
            | inl yes_ ↦
                rw (eq, yes_)
                  (ap₂ ◌∷◌ (ground arith) (
                    decisions_refine to_string config k p now rest (history ++ now ∷ []) buckets' on
                      small up.1 same.1
                      (subst (Shows limit now (history ++ now ∷ [])) (ground arith)
                        (passed limit last now history (bucket_of k buckets) up.0 h yes_))))
            | inr no_ ↦
                rw (eq, no_)
                  (ap₂ ◌∷◌ (ground arith) (
                    decisions_refine to_string config k p now rest history buckets' on small up.1
                      same.1
                      (subst (Shows limit now history) (ground arith)
                        (blocked limit last now history (bucket_of k buckets) up.0 h))))
          ]
    ]

-- From empty buckets, on any arrivals in time order, an enabled limiter whose limit for the path
-- `p` is below 2 ^ 32 decides on the requests with the bucket key `k` as the specification that
-- forgets no request, whatever requests with other keys come in between, if all requests with
-- that key ask for `p`.
pub decisions_lem :
    (to_string : ℕ → String) (config : RateLimitConfig) (k p : String) (arrivals : List Arrival)
    → config.enabled ≡ true
    → (limit_for_path config p).max_requests < 2 ^ 32
    → Increasing 0 arrivals
    → SamePath k p arrivals
    → decisions to_string config k arrivals []
      ≡ spec_decisions (limit_for_path config p) k arrivals []
unfolding bucket_of get
decisions_lem to_string config k p arrivals on small up same =
    decisions_refine to_string config k p 0 arrivals [] [] on small up same
      (record { recent = refl; room = omega arith })
