-- ===== src/DocumentDb/Payload.antt =====
-- What the function of documentdb_stack.py is called with: the payload of the custom resource, and
-- the secret, each read as JSON.
use services_modulith_infra.Base.{
  String, List, Option, none, some, [], ◌∷◌, ◌++◌, true, ◌≡◌, refl, ap, ◌∙◌, ◌^^◌, join_all,
}
use services_modulith_infra.Base.Json.{
  Token, lbrace, rbrace, colon, comma, quoted, number, between, in_text, scan, tokens, prepend,
  finish, is_plain, scan_step, scan_quoted, scan_member,
}
use services_modulith_infra.Base.Json.Read.{
  Json, member, as_text, as_number, loads, or_fail, read_all,
}
use services_modulith_infra.Base.Dict.{lookup}
use services_modulith_infra.Cdk.{Cdk, SdkCall}
use services_modulith_infra.DocumentDb.{endpoint_call, secret_template}
use services_modulith_infra.DocumentDb.Handler.{Event}

-- What the function reads of its event; `none` is a missing key.
abbrev pub event_of : Json → Option Event
event_of v = or_fail (or_fail (member "RequestType" v) as_text) λ request.
    or_fail (member "ResourceProperties" v) λ properties.
      or_fail (or_fail (member "SecretArn" properties) as_text) λ arn.
        or_fail (or_fail (member "DocumentDbEndpoint" properties) as_text) λ endpoint.
          some
            (record { request_type = request; secret_arn = arn; document_db_endpoint = endpoint })

-- The payload up to the ARN of the secret, and from the ARN on.
abbrev request_text : String → String
request_text request =
    "{\"RequestType\":\"" ^^ request ^^ "\",\"ResourceProperties\":{\"SecretArn\":\""

abbrev request_tokens : String → List Token
request_tokens request =
    lbrace
    ∷ quoted "RequestType"
    ∷ colon
    ∷ quoted request
    ∷ comma
    ∷ quoted "ResourceProperties"
    ∷ colon
    ∷ lbrace
    ∷ quoted "SecretArn"
    ∷ colon
    ∷ []

abbrev between_text : String
between_text = "\",\"DocumentDbEndpoint\":\""

abbrev arn_tokens : String → List Token
arn_tokens arn = quoted arn ∷ comma ∷ quoted "DocumentDbEndpoint" ∷ colon ∷ []

abbrev endpoint_tokens : String → List Token
endpoint_tokens endpoint = quoted endpoint ∷ rbrace ∷ rbrace ∷ []

scan_request :
    (request : String)
    → is_plain request ≡ true
    → scan between (request_text request) ≡ some (in_text "", request_tokens request)
unfolding scan
scan_request request =
    scan_member between (lbrace ∷ quoted "RequestType" ∷ colon ∷ []) "{\"RequestType\":\"" request
      "\",\"ResourceProperties\":{\"SecretArn\":\"" refl

scan_properties :
    (arn endpoint : String)
    → is_plain arn ≡ true
    → is_plain endpoint ≡ true
    → scan (in_text "") (arn ^^ between_text ^^ endpoint ^^ "\"}}")
      ≡ some (between, arn_tokens arn ++ endpoint_tokens endpoint)
unfolding scan
scan_properties arn endpoint plain_arn plain_endpoint =
    scan_quoted arn (between_text ^^ endpoint ^^ "\"}}") plain_arn
    ∙ scan_member (in_text arn) (arn_tokens arn) between_text endpoint "\"}}" refl plain_endpoint

payload-tokens :
    (request arn endpoint : String)
    → is_plain request ≡ true
    → is_plain arn ≡ true
    → is_plain endpoint ≡ true
    → tokens (request_text request ^^ arn ^^ between_text ^^ endpoint ^^ "\"}}")
      ≡ some (request_tokens request ++ arn_tokens arn ++ endpoint_tokens endpoint)
unfolding tokens
payload-tokens request arn endpoint plain plain_arn plain_endpoint = ap finish (
    scan_step between (in_text "") (request_tokens request) (request_text request) _
      (scan_request request plain)
    ∙ ap (prepend (request_tokens request)) (scan_properties arn endpoint plain_arn plain_endpoint))

abbrev template_tokens : String → List Token
template_tokens user =
    lbrace
    ∷ quoted "username"
    ∷ colon
    ∷ quoted user
    ∷ comma
    ∷ quoted "port"
    ∷ colon
    ∷ number 27017
    ∷ comma
    ∷ quoted "documentdb_endpoint"
    ∷ colon
    ∷ quoted ""
    ∷ rbrace
    ∷ []

template-tokens :
    (user : String)
    → is_plain user ≡ true
    → tokens (secret_template user) ≡ some (template_tokens user)
unfolding tokens
template-tokens user plain = ap finish (
    scan_member between (lbrace ∷ quoted "username" ∷ colon ∷ []) "{\"username\":\"" user
      "\", \"port\": 27017, \"documentdb_endpoint\": \"\"}" refl plain)

abbrev pub payload_of : SdkCall → String
payload_of c = elim (lookup "Payload" c.parameters) [ some p ↦ p | none ↦ "" ]

-- The call that the stack makes carries, as JSON, the event that the function reads: the request
-- type, the secret and the endpoint come out as they went in, when aws_cdk's join puts the texts
-- together and they have no quotation mark, no backslash and no control character.
pub payload-reads :
    (cdk : Cdk)
    → ((xs : List String) → cdk.join "" xs ≡ join_all xs)
    → (environment request function arn endpoint : String) → is_plain request ≡ true
    → is_plain arn ≡ true
    → is_plain endpoint ≡ true
    → or_fail
        (loads (payload_of (endpoint_call cdk environment request function arn endpoint)))
        event_of
      ≡ some (record { request_type = request; secret_arn = arn; document_db_endpoint = endpoint })
unfolding loads read_all
payload-reads cdk join-join_all environment request function arn endpoint plain plain_arn
      plain_endpoint =
    ap (λ text. or_fail (loads text) event_of) (join-join_all _)
    ∙ ap (λ r. or_fail (or_fail r read_all) event_of)
        (payload-tokens request arn endpoint plain plain_arn plain_endpoint)

abbrev pub field_of : {A : Type 0} → (Json → Option A) → String → Option Json → Option A
field_of as_value k v = or_fail (or_fail v (member k)) as_value

-- The template of the secret is a JSON object with the user, the port 27017, and an empty endpoint
-- under the name that the function writes to, when the user's name has no quotation mark, no
-- backslash and no control character.
pub template-reads :
    (user : String)
    → is_plain user ≡ true
    → (field_of as_text "username" (loads (secret_template user)) ≡ some user)
      × (field_of as_number "port" (loads (secret_template user)) ≡ some 27017)
      × (field_of as_text "documentdb_endpoint" (loads (secret_template user)) ≡ some "")
unfolding loads read_all
template-reads user plain =
    let read = template-tokens user plain in
    (
      ap (λ r. field_of as_text "username" (or_fail r read_all)) read,
      ap (λ r. field_of as_number "port" (or_fail r read_all)) read,
      ap (λ r. field_of as_text "documentdb_endpoint" (or_fail r read_all)) read,
    )
