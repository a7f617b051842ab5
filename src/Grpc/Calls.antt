-- ===== src/Grpc/Calls.antt =====
-- What `_call_with_retry` of middleware_python/services/cpp_grpc_client.py does.
use social_graph_engine.Base.{
  ℕ, zero, suc, ◌+◌, ◌-◌, ◌*◌, ◌^◌, ◌≤◌, ◌<◌, ◌≡◌, refl, ◌∙◌, ap, Bool, true, false, List, [], ◌∷◌,
  ltb, Bool-cases, inl, inr, arith, length,
}
use social_graph_engine.Grpc.{
  unavailable, deadline_exceeded, unimplemented, other_code, Reply, response, rpc_error, timed_out,
  connection_lost, other_exception, connection_error, ok, raised, Run, retried, connect, handle,
  attempts, call_with_retry,
}

-- `n` delays that double, from `delay * 2 ^ i`.
abbrev pub doubling : ℕ → ℕ → ℕ → List ℕ
doubling delay i zero = []
doubling delay i (suc n) = delay * 2 ^ i ∷ doubling delay (suc i) n

-- At most `n` calls, and fewer delays than attempts.
abbrev Within : {A : Type 0} → ℕ → Run A → Type 0
Within n r = (r.calls ≤ n) × (length r.slept ≤ n - 1)

module _ {A : Type 0} (retry_delay max_retries : ℕ) where
  handle-Within :
      (i n : ℕ) (r : Reply A) (lost kept : Run A)
      → (i < max_retries - 1 → 1 ≤ n)
      → Within n lost
      → Within n kept
      → Within (suc n) (handle retry_delay max_retries i r lost kept)
  unfolding handle
  handle-Within i n (response a) lost kept more l k = (omega arith, omega arith)
  handle-Within i n (rpc_error unavailable) lost kept more l k =
      elim (Bool-cases (ltb i (max_retries - 1))) [
        | inl goes ↦ rw goes (omega arith, ground (arith, more (ground arith)))
        | inr ends_here ↦ rw ends_here (omega arith, omega arith)
      ]
  handle-Within i n (rpc_error deadline_exceeded) lost kept more l k = (omega arith, omega arith)
  handle-Within i n (rpc_error unimplemented) lost kept more l k = (omega arith, omega arith)
  handle-Within i n (rpc_error other_code) lost kept more l k = (omega arith, omega arith)
  handle-Within i n timed_out lost kept more l k = (omega arith, omega arith)
  handle-Within i n connection_lost lost kept more l k = (omega arith, omega arith)
  handle-Within i n other_exception lost kept more l k =
      elim (Bool-cases (ltb i (max_retries - 1))) [
        | inl goes ↦ rw goes (omega arith, ground (arith, more (ground arith)))
        | inr ends_here ↦ rw ends_here (omega arith, omega arith)
      ]

module _ {A : Type 0} (retry_delay max_retries : ℕ) (ping : ℕ → Bool) (call_fn : ℕ → Reply A) where
  attempts-Within :
      (left i : ℕ) (connected : Bool)
      → i + left ≡ max_retries
      → Within left (attempts retry_delay max_retries ping call_fn left i connected)
  unfolding attempts
  attempts-Within zero i connected e = (omega arith, omega arith)
  attempts-Within (suc left) i connected e = elim (Bool-cases (connect (ping i) connected)) [
    | inr down ↦ rw down (omega arith, omega arith)
    | inl up ↦ rw up (
        handle-Within retry_delay max_retries i left (call_fn i) _ _ (λ lt. omega arith)
          (attempts-Within left (suc i) false (omega arith))
          (attempts-Within left (suc i) true (omega arith)))
  ]

  -- A call with retries ends after at most `max_retries` calls of the stub, with fewer delays than
  -- that, whatever the network does.
  pub call_with_retry_bounds :
      (connected : Bool)
      → ((call_with_retry retry_delay max_retries ping call_fn connected).calls ≤ max_retries)
        × (length (call_with_retry retry_delay max_retries ping call_fn connected).slept
            ≤ max_retries - 1)
  unfolding call_with_retry
  call_with_retry_bounds connected = attempts-Within max_retries 0 connected (omega arith)

  -- The first `n` attempts from `i` on find the service unavailable, and every reconnection succeeds.
  abbrev pub Outage : ℕ → ℕ → Type 0
  Outage i zero = Unit
  Outage i (suc n) = (call_fn i ≡ rpc_error unavailable) × (ping (suc i) ≡ true) × Outage (suc i) n

  recovers :
      (n left i m : ℕ) (a : A) (connected : Bool)
      → i + left ≡ max_retries
      → n < left
      → i + n ≡ m
      → connect (ping i) connected ≡ true
      → Outage i n
      → call_fn m ≡ response a
      → attempts retry_delay max_retries ping call_fn left i connected ≡ record {
        result = ok a;
        connected = true;
        calls = suc n;
        slept = doubling retry_delay i n;
      }
  unfolding attempts handle connect
  recovers n zero i m a connected total lt here up out end = absurd (omega arith)
  recovers zero (suc left) i m a connected total lt here up out end =
      let same : i ≡ m = omega arith in
      let now : call_fn i ≡ response a = ap call_fn same ∙ end in rw (up, now) refl
  recovers (suc n) (suc left) i m a connected total lt here up out end =
      let more : ltb i (max_retries - 1) ≡ true = ground arith in
      let rest =
        recovers n left (suc i) m a false (omega arith) (omega arith) (omega arith) out.1 out.2
          end in
      rw (up, out.0, more) (ap (retried (retry_delay * 2 ^ i)) rest)

  -- A call on an open connection that meets an outage of `n` attempts, fewer than `max_retries`,
  -- with every reconnection answered, ends with the response of the next one, after `n` delays that
  -- double from `retry_delay`.
  pub call_with_retry-recovers :
      (n : ℕ) (a : A)
      → n < max_retries
      → Outage 0 n
      → call_fn n ≡ response a
      → call_with_retry retry_delay max_retries ping call_fn true ≡ record {
        result = ok a;
        connected = true;
        calls = suc n;
        slept = doubling retry_delay 0 n;
      }
  unfolding call_with_retry connect
  call_with_retry-recovers n a lt out end =
      recovers n max_retries 0 n a true (omega arith) lt (omega arith) refl out end

  unreachable :
      (left : ℕ)
      → 2 ≤ max_retries
      → left ≡ max_retries
      → call_fn 0 ≡ rpc_error unavailable
      → ping 1 ≡ false
      → attempts retry_delay max_retries ping call_fn left 0 true ≡ record {
        result = raised connection_error;
        connected = false;
        calls = 1;
        slept = retry_delay * 2 ^ 0 ∷ [];
      }
  unfolding attempts handle connect
  unreachable zero two same down lost = absurd (omega arith)
  unreachable (suc zero) two same down lost = absurd (omega arith)
  unreachable (suc (suc left)) two same down lost =
      let more : ltb 0 (max_retries - 1) ≡ true = ground arith in rw (down, more, lost) refl

  -- With two attempts or more on an open connection, a reconnection that fails ends the call at
  -- once: if the service is unavailable at the first attempt and the Ping behind the first delay is
  -- not answered, the call raises a connection error after one call and one delay, however many
  -- retries are left and whatever the service does later.
  pub call_with_retry-unreachable :
      2 ≤ max_retries
      → call_fn 0 ≡ rpc_error unavailable
      → ping 1 ≡ false
      → call_with_retry retry_delay max_retries ping call_fn true ≡ record {
        result = raised connection_error;
        connected = false;
        calls = 1;
        slept = retry_delay * 2 ^ 0 ∷ [];
      }
  unfolding call_with_retry
  call_with_retry-unreachable two down lost = unreachable max_retries two refl down lost
