-- ===== src/Connector/Zoho/Source/Codec.antt =====
-- A text form of cursors that is read back: it shows that what is relied on of serde_json can hold.
use Prim.Native.Char.{Char, code}
use mcp_data_gateway.Prelude.{
  ℕ, zero, suc, ◌≡◌, refl, ap, sym, ◌∙◌, String, List, [], ◌∷◌, Option, none, some, length, ◌==◌,
  if◌then◌else◌, some-injective,
}
use mcp_data_gateway.Connector.Zoho.Bfs.{FolderCursor, ZohoCursor}
use mcp_data_gateway.Connector.Zoho.Source.{Json, IsJson}

-- What is read, and the rest of the text.
abbrev Read {ℓ} : Type ℓ → Type ℓ
Read A = Option (A × String)

infixl 5 ◌>>=◌
abbrev ◌>>=◌ {ℓ κ} : {A : Type ℓ} {B : Type κ} → Option A → (A → Option B) → Option B
none >>= f = none
some a >>= f = f a

put_nat : ℕ → String → String
put_nat zero s = String.◌∷◌ "." s
put_nat (suc n) s = String.◌∷◌ "1" (put_nat n s)

one_more : Read ℕ → Read ℕ
one_more none = none
one_more (some (n, s)) = some (suc n, s)

get_nat : String → Read ℕ
get_nat String.[] = none
get_nat (String.◌∷◌ c s) =
    let rest = one_more (get_nat s) in if code c == b'.' then some (0, s) else rest

get_nat-put_nat : (n : ℕ) (s : String) → get_nat (put_nat n s) ≡ some (n, s)
unfolding get_nat put_nat one_more
get_nat-put_nat zero s = refl
get_nat-put_nat (suc n) s = rw (get_nat-put_nat n s) refl

put_text : String → String → String
put_text String.[] s = String.◌∷◌ "." s
put_text (String.◌∷◌ c t) s = String.◌∷◌ "1" (String.◌∷◌ c (put_text t s))

first_char : Char → Read String → Read String
first_char c none = none
first_char c (some (t, s)) = some (String.◌∷◌ c t, s)

get_text : String → Read String
get_text String.[] = none
get_text (String.◌∷◌ b String.[]) = if code b == b'.' then some ("", "") else none
get_text (String.◌∷◌ b (String.◌∷◌ c s)) =
    let rest = first_char c (get_text s) in
    if code b == b'.' then some ("", String.◌∷◌ c s) else rest

get_text-put_text : (t s : String) → get_text (put_text t s) ≡ some (t, s)
unfolding get_text put_text first_char
get_text-put_text String.[] String.[] = refl
get_text-put_text String.[] (String.◌∷◌ c s) = refl
get_text-put_text (String.◌∷◌ c t) s = rw (get_text-put_text t s) refl

-- The entries of a list, behind their number.
module _ {A : Type 0} (put : A → String → String) (get : String → Read A)
    (round : (a : A) (s : String) → get (put a s) ≡ some (a, s)) where
  put_all : List A → String → String
  put_all [] s = s
  put_all (x ∷ xs) s = put x (put_all xs s)

  push : A → Read (List A) → Read (List A)
  push a none = none
  push a (some (xs, s)) = some (a ∷ xs, s)

  get_all : ℕ → String → Read (List A)
  get_all zero s = some ([], s)
  get_all (suc n) s = get s >>= λ p. push p.0 (get_all n p.1)

  get_all-put_all : (xs : List A) (s : String) → get_all (length xs) (put_all xs s) ≡ some (xs, s)
  unfolding get_all put_all push
  get_all-put_all [] s = refl
  get_all-put_all (x ∷ xs) s = rw (round x (put_all xs s), get_all-put_all xs s) refl

  put_list : List A → String → String
  put_list xs s = put_nat (length xs) (put_all xs s)

  get_list : String → Read (List A)
  get_list s = get_nat s >>= λ p. get_all p.0 p.1

  get_list-put_list : (xs : List A) (s : String) → get_list (put_list xs s) ≡ some (xs, s)
  unfolding get_list put_list
  get_list-put_list xs s = rw (get_nat-put_nat (length xs) (put_all xs s)) (get_all-put_all xs s)

put_folder : FolderCursor → String → String
put_folder f s = put_text f.folder_id (put_nat f.next_offset s)

get_folder : String → Read FolderCursor
get_folder s = get_text s >>= λ p.
    get_nat p.1 >>= λ q. some (record { folder_id = p.0; next_offset = q.0 }, q.1)

get_folder-put_folder : (f : FolderCursor) (s : String) → get_folder (put_folder f s) ≡ some (f, s)
unfolding get_folder put_folder
get_folder-put_folder f s =
    rw (get_text-put_text f.folder_id (put_nat f.next_offset s), get_nat-put_nat f.next_offset s)
      refl

pub put_cursor : ZohoCursor → String
put_cursor s = put_nat s.watermark_ms (
    put_list put_folder get_folder get_folder-put_folder s.queue (
      put_list put_text get_text get_text-put_text s.visited
        (put_text s.root_id (put_nat s.run_started_ms ""))))

pub get_cursor : String → Option ZohoCursor
get_cursor t = get_nat t >>= λ w. get_list put_folder get_folder get_folder-put_folder w.1 >>= λ q.
    get_list put_text get_text get_text-put_text q.1 >>= λ v. get_text v.1 >>= λ r.
    get_nat r.1 >>= λ n.
    some (record {
      watermark_ms = w.0;
      queue = q.0;
      visited = v.0;
      root_id = r.0;
      run_started_ms = n.0;
    })

get_cursor-put_cursor : (s : ZohoCursor) → get_cursor (put_cursor s) ≡ some s
unfolding get_cursor put_cursor
get_cursor-put_cursor s =
    rw
      (
        get_nat-put_nat s.watermark_ms _,
        get_list-put_list put_folder get_folder get_folder-put_folder s.queue _,
        get_list-put_list put_text get_text get_text-put_text s.visited _,
        get_text-put_text s.root_id _,
        get_nat-put_nat s.run_started_ms _,
      )
      refl

abbrev pub as_text : Json
as_text = record { to_string = λ s. some (put_cursor s); from_str = get_cursor }

pub as_text-IsJson : IsJson as_text
as_text-IsJson = record {
  text = λ s. (put_cursor s, refl);
  round = λ s c e. ap get_cursor (sym (some-injective _ _ e)) ∙ get_cursor-put_cursor s;
}
