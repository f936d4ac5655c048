-- ===== src/Seri/Unpack.antt =====
-- lualib-src/lua-seri.c: what `push_value` reads of the bytes of numbers and strings.
use ctkjserver.Base.{
  ℕ, suc, ◌/◌, ◌%◌, ◌^◌, ◌<◌, ◌≡◌, refl, sym, ap, ap₂, ◌∙◌, Bool, true, false, some, List, [], ◌∷◌,
  ◌++◌, append_assoc, length, length-nil, ltb, leb, ◌==◌, ltb→lt, ltb→le, ==→eq, if◌then◌else◌,
  arith,
}
use ctkjserver.Seri.{
  Value, max_cookie, type_number, type_short_string, type_long_string, number_dword, number_real,
  combine_type,
}
use ctkjserver.Seri.Words.{bytes_of, number_of, length-bytes_of, number_of-bytes_of, rb_read-append}
use ctkjserver.Seri.Write.{◌>>=◌, is_int32}
use ctkjserver.Seri.Read.{
  widened, read_word, get_integer, get_buffer, read_long_string, kind_of, unpack_one, push_value,
}
use ctkjserver.Seri.Encode.{encode_integer, encode_string}

pub if_elim {ℓ κ} :
    {A : Type ℓ} (P : A → Type κ) (c : Bool) (x y : A)
    → (c ≡ true → P x)
    → (c ≡ false → P y)
    → P (if c then x else y)
if_elim P true x y f g = f refl
if_elim P false x y f g = g refl

pub read_word-bytes_of :
    (n v : ℕ) (rest : List ℕ) → v < 256 ^ n → read_word (bytes_of n v ++ rest) n ≡ some (v, rest)
read_word-bytes_of n v rest l =
    ap (λ o. o >>= λ r. some (number_of r.0, r.1))
      (rb_read-append (bytes_of n v) rest n (length-bytes_of n v))
    ∙ ap (λ k. some (k, rest)) (number_of-bytes_of n v l)

number_of-dword : (v : ℕ) → number_of (bytes_of 4 v) ≡ v % 2 ^ 32
unfolding number_of bytes_of
number_of-dword v = omega arith

read_word-dword :
    (v : ℕ) (rest : List ℕ) → read_word (bytes_of 4 v ++ rest) 4 ≡ some (v % 2 ^ 32, rest)
read_word-dword v rest =
    ap (λ o. o >>= λ r. some (number_of r.0, r.1))
      (rb_read-append (bytes_of 4 v) rest 4 (length-bytes_of 4 v))
    ∙ ap (λ k. some (k, rest)) (number_of-dword v)

-- The type byte of a number, and what `get_integer` makes of the bytes after it.
pub record IsCode (v : ℕ) (bytes : List ℕ) : Type 0 where
  pub cookie : ℕ
  pub payload : List ℕ
  pub code : bytes ≡ combine_type type_number cookie ∷ payload
  pub whole : (cookie == number_real) ≡ false
  pub reads : (rest : List ℕ) → get_integer (payload ++ rest) cookie ≡ some (v, rest)

word-IsCode :
    (v cookie : ℕ) (payload : List ℕ)
    → (cookie == number_real) ≡ false
    → ((rest : List ℕ) → get_integer (payload ++ rest) cookie ≡ some (v, rest))
    → IsCode v (combine_type type_number cookie ∷ payload)
word-IsCode v cookie payload whole reads = record {
  cookie = cookie;
  payload = payload;
  code = refl;
  whole = whole;
  reads = reads;
}

dword-IsCode :
    (v : ℕ)
    → widened (v % 2 ^ 32) ≡ v
    → IsCode v (combine_type type_number number_dword ∷ bytes_of 4 v)
unfolding get_integer
dword-IsCode v e = word-IsCode v 4 (bytes_of 4 v) refl (λ rest.
    ap (λ o. o >>= λ r. some (widened r.0, r.1)) (read_word-dword v rest)
    ∙ ap (λ k. some (k, rest)) e)

negative_lem :
    (v : ℕ) → v < 2 ^ 64 → is_int32 v ≡ true → leb (2 ^ 63) v ≡ true → widened (v % 2 ^ 32) ≡ v
negative_lem v l i n = ground arith

positive_lem : (v : ℕ) → is_int32 v ≡ true → leb (2 ^ 63) v ≡ false → widened (v % 2 ^ 32) ≡ v
positive_lem v i n = ground arith

-- Every integer of 64 bits is read as it was written.
pub encode_integer-IsCode : (v : ℕ) → v < 2 ^ 64 → IsCode v (encode_integer v)
unfolding get_integer
encode_integer-IsCode v l =
    if_elim (IsCode v) (v == 0) _ _
      (λ e. word-IsCode v 0 [] refl (λ rest. ap (λ k. some (k, rest)) (sym (==→eq v 0 e))))
      (λ e.
        if_elim (IsCode v) (is_int32 v) _ _
          (λ i.
            if_elim (IsCode v) (leb (2 ^ 63) v) _ _ (λ n. dword-IsCode v (negative_lem v l i n))
              (λ n.
                if_elim (IsCode v) (ltb v 256) _ _
                  (λ f.
                    word-IsCode v 1 (bytes_of 1 v) refl
                      (λ rest. read_word-bytes_of 1 v rest (ltb→lt v 256 f)))
                  (λ f.
                    if_elim (IsCode v) (ltb v 65536) _ _
                      (λ g.
                        word-IsCode v 2 (bytes_of 2 v) refl
                          (λ rest. read_word-bytes_of 2 v rest (ltb→lt v 65536 g)))
                      (λ g. dword-IsCode v (positive_lem v i n)))))
          (λ i.
            word-IsCode v 6 (bytes_of 8 v) refl
              (λ rest. read_word-bytes_of 8 v rest (omega arith))))

-- A type byte gives its kind and its cookie.
pub read_code :
    (fuel t cookie : ℕ) (rb : List ℕ)
    → t < 8
    → unpack_one (suc fuel) (combine_type t cookie ∷ rb) ≡ push_value fuel (kind_of t) cookie rb
unfolding unpack_one
read_code fuel t cookie rb l =
    ap₂ (λ a b. push_value fuel (kind_of a) b rb) {x = combine_type t cookie % 8} {y = t}
      {u = combine_type t cookie / 8} {v = cookie} (omega arith) (omega arith)

get_buffer-append :
    (str rest : List ℕ) (n : ℕ)
    → length str ≡ n
    → get_buffer (str ++ rest) n ≡ some (Value.string str, rest)
unfolding get_buffer
get_buffer-append str rest n e =
    ap (λ o. o >>= λ r. some (Value.string r.0, r.1)) (rb_read-append str rest n e)

abbrev ReadsString : ℕ → List ℕ → List ℕ → List ℕ → Type 0
ReadsString fuel str rest bytes =
    unpack_one (suc fuel) (bytes ++ rest) ≡ some (Value.string str, rest)

long_string_2 :
    (fuel : ℕ) (str rest : List ℕ)
    → length str < 65536
    → ReadsString fuel str rest ((combine_type type_long_string 2 ∷ bytes_of 2 (length str)) ++ str)
unfolding push_value read_long_string
long_string_2 fuel str rest l =
    read_code fuel type_long_string 2 ((bytes_of 2 (length str) ++ str) ++ rest) (omega arith)
    ∙ ap (λ t. read_word t 2 >>= λ r. get_buffer r.1 r.0)
        (append_assoc (bytes_of 2 (length str)) str rest)
    ∙ ap (λ o. o >>= λ r. get_buffer r.1 r.0) (read_word-bytes_of 2 (length str) (str ++ rest) l)
    ∙ get_buffer-append str rest (length str) refl

long_string_4 :
    (fuel : ℕ) (str rest : List ℕ)
    → length str < 2 ^ 32
    → ReadsString fuel str rest ((combine_type type_long_string 4 ∷ bytes_of 4 (length str)) ++ str)
unfolding push_value read_long_string
long_string_4 fuel str rest l =
    read_code fuel type_long_string 4 ((bytes_of 4 (length str) ++ str) ++ rest) (omega arith)
    ∙ ap (λ t. read_word t 4 >>= λ r. get_buffer r.1 r.0)
        (append_assoc (bytes_of 4 (length str)) str rest)
    ∙ ap (λ o. o >>= λ r. get_buffer r.1 r.0) (read_word-bytes_of 4 (length str) (str ++ rest) l)
    ∙ get_buffer-append str rest (length str) refl

-- Every string is read as it was written.
pub encode_string-read :
    (fuel : ℕ) (str rest : List ℕ)
    → length str < 2 ^ 32
    → unpack_one (suc fuel) (encode_string str ++ rest) ≡ some (Value.string str, rest)
unfolding push_value
encode_string-read fuel str rest l =
    let len = length str in
    if_elim (ReadsString fuel str rest) (ltb len max_cookie) _ _
      (λ e.
        if_elim (ReadsString fuel str rest) (ltb 0 len) _ _
          (λ f.
            read_code fuel type_short_string len (str ++ rest) (omega arith)
            ∙ get_buffer-append str rest len refl)
          (λ f.
            let none_left : str ≡ [] = length-nil str (omega (arith, ltb→le 0 len f)) in
            read_code fuel type_short_string len rest (omega arith)
            ∙ ap (λ s. get_buffer (s ++ rest) len) (sym none_left)
            ∙ get_buffer-append str rest len refl))
      (λ e.
        if_elim (ReadsString fuel str rest) (ltb len 65536) _ _
          (λ f. long_string_2 fuel str rest (ltb→lt len 65536 f))
          (λ f. long_string_4 fuel str rest l))
