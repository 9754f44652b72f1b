-- ===== src/Graphql/Handler.antt =====
-- indexer/internal/api/graphql.go: handleGraphQL. The decoder's result is an argument; schema.Exec
-- and json.Marshal of its response are one parameter, the response's text, if it can be encoded.
use pulsar_app.Base.{
  List, [], ◌∷◌, ◌++◌, Option, none, some, Str, codes, eq_str, trim_space, if◌then◌else◌,
}
use pulsar_app.Store.{Db}
use pulsar_app.Http.{Call, write_header, write, json_type, Envelope, transport_envelope}

-- `graphQLRequest`, without the variables, which only Exec reads
pub record GraphqlRequest : Type 0 where
  pub query : Str
  pub operation_name : Str

module _ (marshal : Envelope → Option Str) (exec : GraphqlRequest → Db → Option Str) where
  -- `writeGraphQLTransportError`; Encode ends the text with a newline, and writes nothing if it
  -- fails.
  unfoldable pub write_transport_error : Str → List Call
  write_transport_error message = elim (marshal (transport_envelope message)) [
    | none ↦ json_type ∷ write_header 400 ∷ []
    | some text ↦ json_type ∷ write_header 400 ∷ write (text ++ codes "\n") ∷ []
  ]

  answered : Option Str → List Call
  unfolding write_transport_error
  answered none = write_transport_error (codes "The indexer could not encode the GraphQL response.")
  answered (some out) = json_type ∷ write_header 200 ∷ write out ∷ []

  -- `handleGraphQL`; none is a body that is too large or malformed.
  unfoldable pub handle_graphql : Option GraphqlRequest → Db → List Call
  unfolding write_transport_error answered trim_space
  handle_graphql none db =
      write_transport_error
        (codes "The request body must be a JSON object of the form {\"query\": \"...\"}.")
  handle_graphql (some req) db =
      if eq_str (trim_space req.query) []
      then write_transport_error (codes "The request must carry a non-empty GraphQL query.")
      else answered (exec req db)
