-- ===== src/Daemon/Mirror.antt =====
-- The loop of `main` with the Zoho connector: its rounds are the cycles of the connector.
mod Tests
use mcp_data_gateway.Prelude.{
  ℕ, ◌++◌, subst, All, if◌then◌else◌, zero, suc, ◌+◌, ◌≤◌, ◌≡◌, refl, ap, sym, ◌∙◌, String, true,
  false, inl, inr, List, [], ◌∷◌, Option, none, some, arith, length, take, Bool-cases, Elem,
}
use mcp_data_gateway.Prelude.Int.{ℤ}
use mcp_data_gateway.Prelude.Bytes.{bytes_eq, bytes_eq_refl, eq_of_bytes_eq}
use mcp_data_gateway.Prelude.Text.{Text}
use mcp_data_gateway.Connector.Zoho.Bfs.{ZohoFileItem, PageReply, is_folder}
use mcp_data_gateway.Connector.Zoho.Bfs.Crawl.{IsDrive}
use mcp_data_gateway.Connector.Zoho.Bfs.Yields.{change_of}
use mcp_data_gateway.Connector.Zoho.Source.{Json, IsJson}
use mcp_data_gateway.Ingest.{Db, Env, run_cycle}
use mcp_data_gateway.Ingest.Alike.{Alike, Alike-trans, Spares, run_cycle-Alike, run_cycle-Spares}
use mcp_data_gateway.Ingest.Rows.{rows_of}
use mcp_data_gateway.Ingest.Cycle.{target}
use mcp_data_gateway.Ingest.Drive.{Lists, cycles, env_at, run_cycle-none}
use mcp_data_gateway.Ingest.Crawled.{AnswersAs}
use mcp_data_gateway.Ingest.Mirror.{HasOnePlace, Within, cycles-Mirrors}
use mcp_data_gateway.Daemon.Cursors.{load_cursor-put_back, load_cursor-put_back_other}
use mcp_data_gateway.Daemon.{World, load_cursor, save_cursor, put_back, one_cycle, round, poll_loop}

-- what a connector sees of the tables
abbrev seen : Text → World → Db
seen id w = record { table = w.table; cursor = load_cursor id w.cursors }

seen-one_cycle :
    (env : Env) (id : Text) (w : World)
    → seen id (one_cycle env id w) ≡ (run_cycle env (seen id w)).0
unfolding one_cycle
seen-one_cycle env id w =
    let db = (run_cycle env (seen id w)).0 in
    ap (λ c. record { table = db.table; cursor = c })
      (load_cursor-put_back id db.cursor w.cursors (run_cycle-none env (seen id w)))

-- the times of some rounds, from the i-th on
abbrev pub times_of : (ℕ → ℕ) → ℕ → ℕ → List ℕ
times_of clock zero i = []
times_of clock (suc n) i = clock i ∷ times_of clock n (i + 1)

length-times_of : (clock : ℕ → ℕ) (n i : ℕ) → length (times_of clock n i) ≡ n
length-times_of clock zero i = refl
length-times_of clock (suc n) i = ap suc (length-times_of clock n (i + 1))

take-times_of :
    (clock : ℕ → ℕ) (k n i : ℕ) → k ≤ n → take k (times_of clock n i) ≡ times_of clock k i
take-times_of clock zero n i l = refl
take-times_of clock (suc k) zero i l = absurd (omega arith)
take-times_of clock (suc k) (suc n) i l =
    ap (◌∷◌ (clock i)) (take-times_of clock k n (i + 1) (omega arith))

All-front : (P : Text → Type 0) (xs ys : List Text) → All P (xs ++ ys) → All P xs
All-front P [] ys h = tt
All-front P (x ∷ xs) ys (p, h) = (p, All-front P xs ys h)

All-back : (P : Text → Type 0) (xs ys : List Text) → All P (xs ++ ys) → All P ys
All-back P [] ys h = h
All-back P (x ∷ xs) ys (p, h) = All-back P xs ys h

-- A connector with another id that lists no change of an item.
abbrev pub IsApart : (ℕ → Text → Env) → Text → String → Text → Type 0
IsApart envs id x k = (bytes_eq k id ≡ false) × ((i : ℕ) → Spares x (envs i k))

module _ (envs : ℕ → Text → Env) (id : Text) (x : String) where
  one_cycle-IsApart :
      (i : ℕ) (k : Text) (w : World)
      → IsApart envs id x k
      → Alike x (seen id (one_cycle (envs i k) k w)) (seen id w)
  unfolding one_cycle
  one_cycle-IsApart i k w (n, spares) = (
    load_cursor-put_back_other id k (run_cycle (envs i k) (seen k w)).0.cursor w.cursors n,
    run_cycle-Spares x (envs i k) (seen k w) (spares i),
  )

  round-IsApart :
      (i : ℕ) (others : List Text) (w : World)
      → All (IsApart envs id x) others
      → Alike x (seen id (round envs i others w)) (seen id w)
  unfolding round
  round-IsApart i [] w h = (refl, refl)
  round-IsApart i (k ∷ others) w (a, h) =
      Alike-trans x (seen id (round envs i others (one_cycle (envs i k) k w)))
        (seen id (one_cycle (envs i k) k w)) (seen id w)
        (round-IsApart i others (one_cycle (envs i k) k w) h) (one_cycle-IsApart i k w a)

  round-append :
      (i : ℕ) (before after : List Text) (w : World)
      → round envs i (before ++ after) w ≡ round envs i after (round envs i before w)
  unfolding round
  round-append i [] after w = refl
  round-append i (k ∷ before) after w = round-append i before after (one_cycle (envs i k) k w)

  round_first :
      (i : ℕ) (k : Text) (after : List Text) (w : World)
      → round envs i (k ∷ after) w ≡ round envs i after (one_cycle (envs i k) k w)
  unfolding round
  round_first i k after w = refl

  -- A round is a cycle of the connector, as far as it and the item are concerned.
  round-Alike :
      (i : ℕ) (before after : List Text) (w : World) (db : Db)
      → All (IsApart envs id x) before
      → All (IsApart envs id x) after
      → Alike x (seen id w) db
      → Alike x (seen id (round envs i (before ++ id ∷ after) w)) (run_cycle (envs i id) db).0
  round-Alike i before after w db hb ha h =
      let first = round envs i before w in
      let second = one_cycle (envs i id) id first in
      subst (λ v. Alike x (seen id v) (run_cycle (envs i id) db).0)
        (sym (round-append i before (id ∷ after) w ∙ round_first i id after first))
        (Alike-trans x (seen id (round envs i after second)) (seen id second)
          (run_cycle (envs i id) db).0 (round-IsApart i after second ha)
          (subst (λ d. Alike x d (run_cycle (envs i id) db).0)
            (sym (seen-one_cycle (envs i id) id first))
            (run_cycle-Alike x (envs i id) (seen id first) db
              (Alike-trans x (seen id first) (seen id w) db (round-IsApart i before w hb) h))))

  poll_loop-Alike :
      (env : Env) (lists : Lists) (clock : ℕ → ℕ) (n i : ℕ) (before after : List Text) (w : World)
      (db : Db)
      → ((j : ℕ) → envs j id ≡ env_at env lists (clock j))
      → All (IsApart envs id x) before
      → All (IsApart envs id x) after
      → Alike x (seen id w) db
      → Alike x
          (seen id (poll_loop envs n i false (before ++ id ∷ after) w))
          (cycles env lists (times_of clock n i) db)
  unfolding poll_loop cycles
  poll_loop-Alike env lists clock zero i before after w db e hb ha h = h
  poll_loop-Alike env lists clock (suc n) i before after w db e hb ha h =
      poll_loop-Alike env lists clock n (i + 1) before after (round envs i (before ++ id ∷ after) w)
        (run_cycle (env_at env lists (clock i)) db).0 e hb ha
        (subst (λ v. Alike x (seen id (round envs i (before ++ id ∷ after) w)) (run_cycle v db).0)
          (e i) (round-Alike i before after w db hb ha h))

module _ (json : Json) (is_json : IsJson json) (format_epoch_ms : ℤ → List ℕ) (fuel : ℕ)
    (page : String → ℕ → ℕ → PageReply) (root : String) (lists : Lists)
    (answers : AnswersAs json format_epoch_ms fuel page root lists) (env : Env)
    (loads : env.loads ≡ true) (saves : env.saves ≡ true) (listing : String → List ZohoFileItem)
    (universe : List String)
    (drive : IsDrive format_epoch_ms fuel (λ x. page x 0) listing root universe) where
  -- The loop has the Zoho connector among others, as `main` has it behind that of the Graph, without a saved
  -- cursor of it; the others have other ids and list no change of a file of the drive. The connector
  -- answers what `list_changes` returns, whose fuel is enough for the listing of each folder of the
  -- drive; the drive stays as it is, its folders answer, each file has one place, and cursors of the
  -- connector are loaded and saved. Then after some number of rounds, at most one more than there are
  -- folders below the root, the rows of each file of the drive are what its change makes of its old ones.
  pub poll_loop-Mirrors :
      (envs : ℕ → Text → Env) (clock : ℕ → ℕ) (before : List Text) (id : Text) (after : List Text)
      (w : World)
      → HasOnePlace listing
      → load_cursor id w.cursors ≡ none
      → ((i : ℕ) → envs i id ≡ env_at env lists (clock i))
      → ((folder : String) (item : ZohoFileItem)
          → Elem item (listing folder)
          → All (IsApart envs id item.id) (before ++ after))
      → (n : ℕ) × (n ≤ suc (length universe))
        × ((folder : String) (item : ZohoFileItem)
            → Within listing root folder
            → Elem item (listing folder)
            → is_folder item ≡ false
            → rows_of item.id (poll_loop envs n 0 false (before ++ id ∷ after) w).table
              ≡ target env (change_of format_epoch_ms folder item) (rows_of item.id w.table))
  poll_loop-Mirrors envs clock before id after w h e polls apart =
      let later = times_of clock (length universe) 1 in
      let enough : length universe ≤ length later =
        omega (arith, length-times_of clock (length universe) 1) in
      let (n, few, m) =
        cycles-Mirrors json is_json format_epoch_ms fuel page root lists answers env loads saves
          listing universe drive (clock 0) later (seen id w) h e enough in
      (
        n,
        few,
        λ folder item within i f.
            (poll_loop-Alike envs id item.id env lists clock n 0 before after w (seen id w) polls
              (All-front (IsApart envs id item.id) before after (apart folder item i))
              (All-back (IsApart envs id item.id) before after (apart folder item i))
              (refl, refl)).1
            ∙ ap (λ ts. rows_of item.id (cycles env lists ts (seen id w)).table)
                (sym (take-times_of clock n (suc (length universe)) 0 few))
            ∙ m.files folder item within i f,
      )
