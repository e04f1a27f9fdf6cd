-- ===== src/Lib.antt =====
-- Verification of the Rust programs of the MCP data gateway: the ingestion daemon (ingestion/src) and the
-- key rotation tool (tools/key-rotation/src).
--
-- The daemon asks each source connector for the changes since a cursor, downloads the files, cuts their
-- text into chunks, encrypts and embeds these and stores them, in rounds. The sanitizer, which replaces
-- personal data in a text by tokens of a vault, is a module of the daemon that its cycle does not call. The
-- tool encrypts the stored chunks again under a new key, in batches.
--
-- Which file models which part:
--   Daemon             main, Args and build_zoho_connector of ingestion/src/main.rs, and the table of cursors
--                      of state.rs. Start is about what is checked in front of the loop, Polls about the
--                      rounds, Mirror about those with the Zoho connector among others.
--   Ingest             run_cycle and extract_text of ingestion/src/main.rs, the queries of db.rs and state.rs.
--                      Rows is about the queries, Cycle about the loop over the changes, Stored about one
--                      file from its chunks to its rows, Opens about what every row of the table is. Drive,
--                      Crawled and Mirror compose many cycles with the Zoho connector; Alike is about what
--                      the cycles of another connector leave alone.
--   Ingest/Embed       ingestion/src/embed.rs, and format_vector of db.rs. Sort is about the order of a
--                      reply, Order about the batches.
--   Ingest/Cipher      ingestion/src/crypto.rs; Laws compares it with the key rotation's.
--   Chunker            ingestion/src/chunker.rs: chunk, chunk_by_chars. Windows is the closed description of
--                      the result, Cover what the chunks hold.
--   Sanitize           ingestion/src/sanitize/mod.rs: EntityKind, Span. Merge is merge_and_dedup, Substitute
--                      is substitute and render_token, Pipeline is sanitize in its three compile-time
--                      shapes and scan of regex_scan.rs, Checks is is_valid_nir and is_valid_iban of
--                      regex_scan.rs.
--   Sanitize/Ner       ingestion/src/sanitize/ner.rs: map_label and bio_merge. Model is scan, the loading of
--                      the model and its table of labels.
--   Sanitize/Vault     ingestion/src/sanitize/vault.rs: PiiVault. Safety is about statements that
--                      interleave, Races about those that fail, Ranks is the abstract vault and Refines the
--                      refinement. Live is substitute of mod.rs with the tables of a vault; Pipeline has the
--                      vault as a function.
--   Connector          ingestion/src/connector/mod.rs: ChangeItem, DeltaResult, ConnectorError.
--   Connector/Zoho     ingestion/src/connector/zoho.rs: Client is ZohoClient::new; Bfs is the cursor,
--                      list_folder_page and list_changes (Pages: one folder; Visits and Run: many calls;
--                      Crawl, Turn, Midway and Drains: one traversal of a drive); Source is the
--                      implementation of SourceConnector, with cursors as texts, and its download;
--                      Tokens is ZohoTokenCache; Redirect is download_with_trusted_auth and
--                      is_trusted_zoho_host; Body is stream_body; Clock is format_epoch_ms.
--   Connector/Graph    ingestion/src/connector/graph.rs; Client is GraphClient::new and fetch_token, Delta the
--                      chain of pages of a delta query.
--   Crypto             tools/key-rotation/src/crypto.rs: parse_key, encrypt, decrypt.
--   KeyRotation        tools/key-rotation/src/main.rs and db.rs: the table is the list of its rows, one
--                      function per query, and main with its loop over the batches. Rows is about one row
--                      and one batch on a Table, Rounds and Loop about the loop, Run about the whole
--                      run, and Handover about a run on the table that the daemon left. Embed is embed.rs,
--                      and format_vector of db.rs.
--   Prelude            shared names, texts (lists of code points), bytes, decimals, list lemmas, results.
--
-- How the code is modelled. Numbers are natural numbers; where the source has a fixed width that a run can
-- reach, as the u32 offset of a page, the wrap-around is written out. A text whose byte offsets matter is
-- its UTF-8 bytes, and a slice of it is an Option, `none` being the panic. Stateful code takes and
-- returns its state: the cursor, the token cache, the tables, the temporary file. A transaction that fails
-- leaves the table as it was, and a commit that is not answered has written its rows. A Uuid is a number,
-- which the database orders. A statement of the vault takes the snapshot that it reads and the tables at
-- the time it writes, as PostgreSQL gives them to a statement at READ COMMITTED. Replies of services, the
-- clock, random bytes, the AES-256-GCM cipher, HMAC-SHA256, the regex engine, the tokenizer and the network
-- of the model, the forms of Unicode and the rendering of a time in list_changes are parameters; what is
-- relied on is a named record of laws (IsEngine, IsAead, IsEmbedder, IsReady, IsWorking, IsJson, IsParser,
-- IsDrive) or a hypothesis, and the tests have an instance of each.
--
-- Fuel. chunk_by_chars runs on one more than the length of the text, and each round advances. embed_batch
-- runs on the number of texts, and each batch takes one at least. main of the key rotation runs on one more
-- than the number of rows, and each round reads a row. The loops over the pages of a folder and of a delta
-- query need not end: they run on any fuel, and as many rounds as there are pages are enough (IsDrive
-- asks for that much in each folder). The loop over
-- redirects is bounded in the source. The loop of the daemon does not end without --once: it is given a
-- number of rounds.
--
-- Not modelled: the Debug implementations, which print constants in place of secrets, sleeping, logging, the
-- decoding of JSON and of arguments, and the gateway itself, which is written in Java.
pub mod Prelude
pub mod Chunker
pub mod Sanitize
pub mod Connector
pub mod Crypto
pub mod KeyRotation
pub mod Ingest
pub mod Daemon
