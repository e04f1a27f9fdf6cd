-- ===== src/Connector/Zoho/Source/Tests.antt =====
-- A download by a client of the program, with a parser of URLs that reads the host up to the first slash.
use mcp_data_gateway.Prelude.{
  ℕ, ◌≤◌, ◌≡◌, refl, sym, ap, ◌∙◌, true, false, [], ◌∷◌, ◌++◌, Option, none, some, arith, ◌==◌, leb,
  ◌&&◌, length, All, drop, append_assoc, append-nil, if◌then◌else◌,
}
use mcp_data_gateway.Prelude.Bytes.{Bytes, and_true}
use mcp_data_gateway.Prelude.Text.{Text, codes}
use mcp_data_gateway.Prelude.Result.{ok}
use mcp_data_gateway.Connector.{ChangeItem, Outcome}
use mcp_data_gateway.Connector.Zoho.Client.{ZohoCredentials, ZohoClient, new_cache, new_zoho}
use mcp_data_gateway.Connector.Zoho.Redirect.{Url, Request, Reply, response, absent}
use mcp_data_gateway.Connector.Zoho.Redirect.Auth.{IsGuarded}
use mcp_data_gateway.Connector.Zoho.Source.{download}
use mcp_data_gateway.Connector.Zoho.Source.Download.{
  all_small, is_label, IsParser, download-IsGuarded,
}

-- the text in front of the first slash
to_slash : Text → Text
to_slash [] = []
to_slash (c ∷ s) = let rest = to_slash s in if c == b'/' then [] else c ∷ rest

abbrev parse : Text → Option Url
parse s = some (record { text = s; host = some (to_slash (drop 8 s)) })

-- no slash stands in the text
NoSlash : Text → Type 0
NoSlash s = (rest : Text) → to_slash (s ++ rest) ≡ s ++ to_slash rest

NoSlash-append : (s t : Text) → NoSlash s → NoSlash t → NoSlash (s ++ t)
unfolding NoSlash
NoSlash-append s t hs ht rest =
    ap to_slash (append_assoc s t rest)
    ∙ hs (t ++ rest)
    ∙ ap (λ u. s ++ u) (ht rest)
    ∙ sym (append_assoc s t (to_slash rest))

NoSlash-small : (s : Text) → all_small s ≡ true → NoSlash s
unfolding NoSlash to_slash
NoSlash-small [] h rest = refl
NoSlash-small (c ∷ s) h rest =
    let (small, more) = and_true (leb b'a' c && leb c b'z') (all_small s) h in
    let (low, high) = and_true (leb b'a' c) (leb c b'z') small in
    let other : (c == b'/') ≡ false = ground arith in rw (other, NoSlash-small s more rest) refl

NoSlash-label : (s : Text) → is_label s ≡ true → NoSlash s
NoSlash-label [] h = cc
NoSlash-label (c ∷ s) h = NoSlash-small (c ∷ s) h

NoSlash-dot : NoSlash (codes ".")
unfolding NoSlash to_slash
NoSlash-dot rest = refl

-- the slash behind the host
slash_ends : (path : Text) → to_slash (codes "/" ++ path) ≡ []
unfolding to_slash
slash_ends path = refl

parse-IsParser : IsParser parse
unfolding NoSlash
parse-IsParser = record {
  hosts = λ a b c path la lb lc. (
    _,
    refl,
    ap some (
        NoSlash-label a la _
        ∙ ap (λ u. a ++ u)
            (NoSlash-dot _
              ∙ ap (λ u. codes "." ++ u)
                  (NoSlash-label b lb _
                    ∙ ap (λ u. b ++ u)
                        (NoSlash-dot _
                          ∙ ap (λ u. codes "." ++ u)
                              (NoSlash-label c lc _
                                ∙ ap (λ u. c ++ u) (slash_ends path)
                                ∙ append-nil c))))),
  );
}

abbrev creds : ZohoCredentials
creds = record {
  client_id = codes "id";
  client_secret = codes "secret";
  refresh_token = codes "refresh";
  dc = codes "eu";
}

abbrev client : ZohoClient
client = record {
  id = codes "zoho:root";
  tokens = new_cache creds;
  api_base = codes "https://workdrive.zoho.eu/api/v1";
  root_id = codes "root";
}

abbrev file : ChangeItem
file = record {
  remote_id = "f@evil/../x";
  parent_id = some "root";
  name = "note.txt";
  is_folder = false;
  modified_at = none;
  deleted = false;
  raw = none;
}

abbrev answers : Request → Reply
answers r = response 200 absent (ok (codes "file"))

abbrev token : ℕ → Outcome Bytes
token n = ok (codes "t")

download-IsGuarded_example :
    All IsGuarded (download parse answers token client file).0
    × (length (download parse answers token client file).0 ≤ 5)
unfolding new_zoho
download-IsGuarded_example =
    download-IsGuarded parse parse-IsParser answers token true true creds (codes "zoho:root")
      (codes "root") client file refl
