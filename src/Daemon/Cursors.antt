-- ===== src/Daemon/Cursors.antt =====
-- The table of cursors: what is loaded behind a save, of the same connector and of another one.
use mcp_data_gateway.Prelude.{
  ◌≡◌, refl, ap, ◌∙◌, String, false, inl, inr, List, [], ◌∷◌, Option, none, some, Bool-cases,
  if◌then◌else◌,
}
use mcp_data_gateway.Prelude.Bytes.{bytes_eq, bytes_eq_refl, eq_of_bytes_eq}
use mcp_data_gateway.Prelude.Text.{Text}
use mcp_data_gateway.Daemon.{load_cursor, save_cursor, put_back}

load_cursor-save_cursor :
    (id : Text) (token : String) (cursors : List (Text × String))
    → load_cursor id (save_cursor id token cursors) ≡ some token
unfolding load_cursor save_cursor
load_cursor-save_cursor id token [] = rw (bytes_eq_refl id) refl
load_cursor-save_cursor id token (p ∷ cursors) = elim (Bool-cases (bytes_eq p.0 id)) [
  | inl e ↦ rw (e, load_cursor, e) refl
  | inr f ↦ rw (f, load_cursor, f) (load_cursor-save_cursor id token cursors)
]

pub load_cursor-put_back :
    (id : Text) (c : Option String) (cursors : List (Text × String))
    → (c ≡ none → load_cursor id cursors ≡ none)
    → load_cursor id (put_back id c cursors) ≡ c
unfolding put_back
load_cursor-put_back id none cursors h = h refl
load_cursor-put_back id (some token) cursors h = load_cursor-save_cursor id token cursors

load_cursor-saved_other :
    (id k : Text) (token : String) (cursors : List (Text × String))
    → bytes_eq k id ≡ false
    → load_cursor id (save_cursor k token cursors) ≡ load_cursor id cursors
unfolding load_cursor save_cursor
load_cursor-saved_other id k token [] n = rw n refl
load_cursor-saved_other id k token (p ∷ cursors) n = elim (Bool-cases (bytes_eq p.0 k)) [
  | inl e ↦
      let n' : bytes_eq p.0 id ≡ false = ap (λ s. bytes_eq s id) (eq_of_bytes_eq p.0 k e) ∙ n in
      rw (e, load_cursor, n') refl
  | inr f ↦
      rw (f, load_cursor)
        (ap (λ rest. if bytes_eq p.0 id then some p.1 else rest)
          (load_cursor-saved_other id k token cursors n))
]

pub load_cursor-put_back_other :
    (id k : Text) (c : Option String) (cursors : List (Text × String))
    → bytes_eq k id ≡ false
    → load_cursor id (put_back k c cursors) ≡ load_cursor id cursors
unfolding put_back
load_cursor-put_back_other id k none cursors n = refl
load_cursor-put_back_other id k (some token) cursors n =
    load_cursor-saved_other id k token cursors n
