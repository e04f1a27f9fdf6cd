-- ===== src/Connector/Zoho/Body/Tests.antt =====
-- A body of two chunks, whose header tells a small length or a large one.
use mcp_data_gateway.Prelude.{◌≡◌, refl, true, [], ◌∷◌, none, some}
use mcp_data_gateway.Prelude.Text.{codes}
use mcp_data_gateway.Prelude.Result.{ok, err}
use mcp_data_gateway.Connector.{other}
use mcp_data_gateway.Connector.Zoho.Body.{Response, Disk, write_at, stream_body}
use mcp_data_gateway.Connector.Zoho.Body.Same.{joined, body_from, stream_body-joined}

abbrev disk : Disk
disk = record { creates = true; writes = λ i. true; seeks = true; reads = true }

abbrev large : Response
large = record {
  content_length = some 9000000;
  stream = some (codes "ab") ∷ some (codes "c") ∷ [];
  whole = some (codes "abc");
}

spilled : stream_body disk large ≡ ok (codes "abc")
unfolding stream_body write_at
spilled = refl

broken : stream_body disk (record large { stream = some (codes "ab") ∷ none ∷ [] }) ≡ err other
unfolding stream_body write_at
broken = refl

stream_body-joined_example : stream_body disk large ≡ body_from [] (joined large.stream)
stream_body-joined_example =
    stream_body-joined disk large
      (record { creates = refl; writes = λ i. refl; seeks = refl; reads = refl }) refl
