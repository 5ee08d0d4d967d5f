-- ===== src/Http/Attempts.antt =====
-- The attempts at a request and their identifiers: the layers for retries and identifiers in
-- `http_client` of `src/http.rs`. When to retry, and with which limit for the response, is
-- DoubleMaxResponseBytes of canhttp: a parameter.
use evm_rpc_canister.Prelude.{
  ℕ, zero, suc, ◌+◌, ◌%◌, ◌^◌, ◌<◌, ◌≤◌, ◌≡◌, ◌≢◌, subst, List, [], ◌∷◌, All, Option, none, some,
  arith,
}
use evm_rpc_canister.Memory.{Externals, State, next_request_id}

-- A request by its parts and by its body, which is an identifier and the rest
pub record HttpJsonRpcRequest (Parts Body : Type 0) : Type 0 where
  pub parts : Parts
  pub id : ℕ
  pub body : Body

-- Whether another attempt follows a response, and its parts; the body stays as it is.
abbrev pub RetryPolicy : Type 0 → Type 0 → Type 0
RetryPolicy Parts Response = Parts → Response → Option Parts

module _ {X : Externals} where
  -- The identifiers that other requests take while an attempt is under way
  unfoldable pub taken_by_others : ℕ → State X → State X
  unfolding next_request_id
  taken_by_others zero s = s
  taken_by_others (suc n) s = taken_by_others n (next_request_id s).1

module _ {X : Externals} {Parts Body : Type 0} where
  -- `generate_request_id`
  unfoldable pub generate_request_id :
      State X → HttpJsonRpcRequest Parts Body → HttpJsonRpcRequest Parts Body × State X
  unfolding next_request_id
  generate_request_id s request = let (id, t) = next_request_id s in (record request { id = id }, t)

  -- The requests that are sent for one, each through `generate_request_id`, by what is answered to
  -- the attempts and how many identifiers others take meanwhile
  unfoldable pub attempts :
      {Response : Type 0}
      → RetryPolicy Parts Response
      → List (Response × ℕ)
      → State X
      → HttpJsonRpcRequest Parts Body
      → List (HttpJsonRpcRequest Parts Body)
  unfolding generate_request_id taken_by_others
  attempts retry [] s request = []
  attempts retry ((response, others) ∷ rest) s request =
      let (sent, t) = generate_request_id s request in
      elim (retry request.parts response) [
        | none ↦ sent ∷ []
        | some parts ↦
            sent ∷ attempts retry rest (taken_by_others others t) (record request { parts = parts })
      ]

-- How many identifiers are taken in all
abbrev pub num_taken {ℓ} : {R : Type ℓ} → List (R × ℕ) → ℕ
num_taken [] = 0
num_taken ((response, others) ∷ rest) = 1 + others + num_taken rest

abbrev pub AllDiffer : List ℕ → Type 0
AllDiffer [] = Unit
AllDiffer (x ∷ xs) = All (λ y. x ≢ y) xs × AllDiffer xs

abbrev pub ids : {Parts Body : Type 0} → List (HttpJsonRpcRequest Parts Body) → List ℕ
ids [] = []
ids (q ∷ qs) = q.id ∷ ids qs

counter-others :
    {X : Externals} (n : ℕ) (s : State X)
    → s.http_request_counter < 2 ^ 64
    → (taken_by_others n s).http_request_counter ≡ (s.http_request_counter + n) % 2 ^ 64
unfolding taken_by_others next_request_id
counter-others zero s h = omega (arith, h)
counter-others (suc n) s h = omega (arith, counter-others n (next_request_id s).1 (omega arith))

-- One of the `n` identifiers from `c` on, in the order in which the counter gives them
abbrev InWindow : ℕ → ℕ → ℕ → Type 0
InWindow c n x = (k : ℕ) × (k < n) × (x ≡ (c + k) % 2 ^ 64)

All-weaken : {P Q : ℕ → Type 0} → ((x : ℕ) → P x → Q x) → (xs : List ℕ) → All P xs → All Q xs
All-weaken f [] h = tt
All-weaken f (x ∷ xs) h = (f x h.0, All-weaken f xs h.1)

window-later :
    (c others m x : ℕ)
    → InWindow (((c + 1) % 2 ^ 64 + others) % 2 ^ 64) m x
    → InWindow c (1 + others + m) x
window-later c others m x w = (1 + others + w.0, omega (arith, w.1), omega (arith, w.2))

window-differs :
    (c others m x : ℕ)
    → c < 2 ^ 64
    → 1 + others + m ≤ 2 ^ 64
    → InWindow (((c + 1) % 2 ^ 64 + others) % 2 ^ 64) m x
    → c ≢ x
window-differs c others m x h b w e = absurd (omega (arith, w.1, w.2, h, b, e))

abbrev Numbered : ℕ → ℕ → List ℕ → Type 0
Numbered c n l = All (InWindow c n) l × AllDiffer l

-- The identifier at hand, before those of later attempts
Numbered-cons :
    (c others m : ℕ) (l : List ℕ)
    → c < 2 ^ 64
    → 1 + others + m ≤ 2 ^ 64
    → Numbered (((c + 1) % 2 ^ 64 + others) % 2 ^ 64) m l
    → Numbered c (1 + others + m) (c ∷ l)
Numbered-cons c others m l h b w = (
  ((0, omega arith, omega (arith, h)), All-weaken (window-later c others m) l w.0),
  (All-weaken (λ x. window-differs c others m x h b) l w.0, w.1),
)

Numbered-one : (c n : ℕ) → c < 2 ^ 64 → 0 < n → Numbered c n (c ∷ [])
Numbered-one c n h b = (((0, b, omega (arith, h)), tt), (tt, tt))

module _ {X : Externals} {Parts Body Response : Type 0} (retry : RetryPolicy Parts Response) where
  -- One attempt, if those after it are numbered
  attempts-step :
      (response : Response) (others : ℕ) (rest : List (Response × ℕ)) (s : State X)
      (request : HttpJsonRpcRequest Parts Body)
      → s.http_request_counter < 2 ^ 64
      → 1 + others + num_taken rest ≤ 2 ^ 64
      → ((u : State X) (q : HttpJsonRpcRequest Parts Body)
          → u.http_request_counter < 2 ^ 64
          → Numbered u.http_request_counter (num_taken rest) (ids (attempts retry rest u q)))
      → Numbered s.http_request_counter
          (1 + others + num_taken rest)
          (ids (attempts retry ((response, others) ∷ rest) s request))
  unfolding attempts generate_request_id next_request_id
  attempts-step response others rest s request h b later = after (retry request.parts response)
    where
      c : ℕ
      c = s.http_request_counter

      m : ℕ
      m = num_taken rest

      t : State X
      t = taken_by_others others (next_request_id s).1

      moved : t.http_request_counter ≡ ((c + 1) % 2 ^ 64 + others) % 2 ^ 64
      moved = counter-others others (next_request_id s).1 (omega arith)

      after :
          (o : Option Parts)
          → Numbered c (1 + others + m) (
              ids (elim o [
                | none ↦ record request { id = c } ∷ []
                | some parts ↦
                    record request { id = c }
                    ∷ attempts retry rest t (record request { parts = parts })
              ]))
      after none = Numbered-one c (1 + others + m) h (omega arith)
      after (some parts) =
          let q : HttpJsonRpcRequest Parts Body = record request { parts = parts } in
          Numbered-cons c others m (ids (attempts retry rest t q)) h b (
            subst (λ d. Numbered d m (ids (attempts retry rest t q))) moved
              (later t q (omega (arith, moved))))

  attempts-Numbered :
      (answers : List (Response × ℕ)) (s : State X) (request : HttpJsonRpcRequest Parts Body)
      → s.http_request_counter < 2 ^ 64
      → num_taken answers ≤ 2 ^ 64
      → Numbered s.http_request_counter (num_taken answers) (ids (attempts retry answers s request))
  unfolding attempts
  attempts-Numbered [] s request h b = (tt, tt)
  attempts-Numbered ((response, others) ∷ rest) s request h b =
      attempts-step response others rest s request h b
        (λ u q k. attempts-Numbered rest u q k (omega (arith, b)))

  -- All attempts at a request have different identifiers, whatever is answered to them and whatever
  -- identifiers other requests take in between, as long as no more than 2 ^ 64 are taken in all.
  pub attempts-differ :
      (answers : List (Response × ℕ)) (s : State X) (request : HttpJsonRpcRequest Parts Body)
      → s.http_request_counter < 2 ^ 64
      → num_taken answers ≤ 2 ^ 64
      → AllDiffer (ids (attempts retry answers s request))
  attempts-differ answers s request h b = (attempts-Numbered answers s request h b).1
