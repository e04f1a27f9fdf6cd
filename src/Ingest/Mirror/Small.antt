-- ===== src/Ingest/Mirror/Small.antt =====
-- A small drive as the daemon meets it: its listing, one chunk of each text, a toy cipher.
use mcp_data_gateway.Prelude.{map, sym, ap, ◌∙◌, String, true, [], ◌∷◌, Option, none, some}
use mcp_data_gateway.Prelude.Text.{codes}
use mcp_data_gateway.Prelude.Result.{ok, err}
use mcp_data_gateway.Connector.{DeltaResult, Outcome, other}
use mcp_data_gateway.Connector.Zoho.Source.{list_text}
use mcp_data_gateway.Connector.Zoho.Source.Codec.{as_text}
use mcp_data_gateway.Crypto.Tests.{toy, zero_iv}
use mcp_data_gateway.Ingest.{Env}
use mcp_data_gateway.Ingest.Drive.{Lists}
use mcp_data_gateway.Ingest.Crawled.{AnswersAs}
use mcp_data_gateway.Ingest.Mirror.{HasOnePlace}
use mcp_data_gateway.Connector.Zoho.Bfs.SmallDrive.{
  no_time, service, listing, listed, file_is_report,
}

pub one_place : HasOnePlace listing
one_place f g i j e h fi fj s =
    let (a, ei) = listed f i e in
    let (b, ej) = listed g j h in (a ∙ sym b, file_is_report i ei fi ∙ sym (file_is_report j ej fj))

answer : Option (Outcome (DeltaResult String)) → Outcome (DeltaResult String)
answer none = err other
answer (some r) = r

pub lists : Lists
lists now cursor = answer (list_text as_text no_time 2 service now "root" cursor)

pub lists_answer : AnswersAs as_text no_time 2 service "root" lists
unfolding lists answer
lists_answer now cursor r h = ap answer h

abbrev pub env : Env
env = record {
  connector = record { list_changes = lists 0; download = λ item. ok (codes "hi") };
  extract = λ bytes name. bytes;
  aead = toy;
  fill = λ id i. some zero_iv;
  content_key = 7 ∷ [];
  classification = codes "INTERNAL";
  uuid = λ id i. i;
  embed_batch = λ texts. some (map (λ t. codes "[0]") texts);
  loads = true;
  saves = true;
  deletes = λ id. true;
  upserts = λ id. true;
}
