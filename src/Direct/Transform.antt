-- ===== src/Direct/Transform.antt =====
-- What the replicas make of the reply to a direct request: `__transform_json_rpc` of `src/main.rs`,
-- `transform_http_request` of `src/http.rs` and `canonicalize_json` of `src/util.rs`. The values of
-- serde_json are a parameter.
use evm_rpc_canister.Prelude.{
  ℕ, ◌≡◌, ◌∙◌, ◌⊎◌, inl, inr, sym, refl, ap, List, [], Option, none, some, Text, unwrap_or,
}
use evm_rpc_canister.Types.Service.{HttpHeader}

-- serde_json: reading a value, in which members of objects have no order, and writing one, which
-- succeeds for every value, as the keys of its objects are texts.
pub record JsonValues : Type 1 where
  pub Value : Type 0
  pub from_slice : Text → Option Value
  pub to_vec : Value → Option Text
  pub to_vec-succeeds : (v : Value) → (t : Text) × (to_vec v ≡ some t)

pub record IcHttpResponse : Type 0 where
  pub status : ℕ
  pub body : Text
  pub headers : List HttpHeader

module _ (J : JsonValues) where
  -- A step on an option, as `?` makes one
  abbrev written_as : Option J.Value → Option Text
  written_as none = none
  written_as (some json) = J.to_vec json

  unfoldable pub canonicalize_json : Text → Option Text
  canonicalize_json body = written_as (J.from_slice body)

  unfoldable pub transform_http_request : IcHttpResponse → IcHttpResponse
  unfolding canonicalize_json
  transform_http_request response = record {
    status = response.status;
    body = unwrap_or (canonicalize_json response.body) response.body;
    headers = [];
  }

  -- What becomes of a body
  abbrev body_of : Text → Text
  body_of a = unwrap_or (canonicalize_json a) a

  body-same :
      (a b : Text) (v : J.Value)
      → J.from_slice a ≡ some v
      → J.from_slice b ≡ some v
      → body_of a ≡ body_of b
  unfolding canonicalize_json
  body-same a b v e f = let w = J.to_vec-succeeds v in rw e (rw f (rw w.1 refl))

  body-kept : (a : Text) → J.from_slice a ≡ none → body_of a ≡ a
  unfolding canonicalize_json
  body-kept a e = rw e refl

  -- Two replies have bodies that are the same JSON value, however each is written, or the same text.
  abbrev pub SameBody : IcHttpResponse → IcHttpResponse → Type 0
  SameBody a b =
      ((v : J.Value) × (J.from_slice a.body ≡ some v) × (J.from_slice b.body ≡ some v))
      ⊎ (a.body ≡ b.body)

  same-body : (a b : IcHttpResponse) → SameBody a b → body_of a.body ≡ body_of b.body
  same-body a b (inl (v, e, f)) = body-same a.body b.body v e f
  same-body a b (inr e) = ap body_of e

  -- Replies with one status whose bodies are the same JSON value, however it is written, or the same
  -- text become the same reply, whatever their headers are, so that the replicas agree on it.
  pub transform_http_request-agrees :
      (a b : IcHttpResponse)
      → a.status ≡ b.status
      → SameBody a b
      → transform_http_request a ≡ transform_http_request b
  unfolding transform_http_request
  transform_http_request-agrees a b s e i = record {
    status = s i;
    body = same-body a b e i;
    headers = [];
  }

  -- Replies whose bodies are no JSON become the same reply only if they have the same status and body.
  pub transform_http_request-differs :
      (a b : IcHttpResponse)
      → J.from_slice a.body ≡ none
      → J.from_slice b.body ≡ none
      → transform_http_request a ≡ transform_http_request b
      → (a.status ≡ b.status) × (a.body ≡ b.body)
  unfolding transform_http_request
  transform_http_request-differs a b e f same = (
    ap (λ r. r.status) same,
    sym (body-kept a.body e) ∙ (ap (λ r. r.body) same ∙ body-kept b.body f),
  )
