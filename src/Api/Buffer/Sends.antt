-- ===== src/Api/Buffer/Sends.antt =====
-- What middleware.go sends through the buffered response: the statuses, the bytes, the mark of an encoding.
use mathlib.Core.List.{append-nil, append_assoc}
use merm.Prelude.{
  ℕ, ◌≡◌, refl, sym, ap, ◌∙◌, Bool, true, false, ◌||◌, List, [], ◌∷◌, ◌++◌, arith, if◌then◌else◌,
}
use merm.Api.Buffer.{
  Header, Sent, adds_header, varies, drops_length, encodes, writes_header, writes_body, flushes,
  add_all, is_empty,
}

-- the statuses that are sent
abbrev pub statuses : List Sent → List ℕ
statuses [] = []
statuses (writes_header n ∷ sent) = n ∷ statuses sent
statuses (_ ∷ sent) = statuses sent

-- the bytes that are sent
abbrev pub bytes_of : List Sent → List ℕ
bytes_of [] = []
bytes_of (writes_body b ∷ sent) = b ++ bytes_of sent
bytes_of (_ ∷ sent) = bytes_of sent

-- the body is marked as encoded
abbrev pub is_encoded : List Sent → Bool
is_encoded [] = false
is_encoded (encodes ∷ sent) = true
is_encoded (_ ∷ sent) = is_encoded sent

pub statuses-append : (xs ys : List Sent) → statuses (xs ++ ys) ≡ statuses xs ++ statuses ys
statuses-append [] ys = refl
statuses-append (adds_header k v ∷ xs) ys = statuses-append xs ys
statuses-append (varies ∷ xs) ys = statuses-append xs ys
statuses-append (drops_length ∷ xs) ys = statuses-append xs ys
statuses-append (encodes ∷ xs) ys = statuses-append xs ys
statuses-append (writes_header n ∷ xs) ys = ap (◌∷◌ n) (statuses-append xs ys)
statuses-append (writes_body b ∷ xs) ys = statuses-append xs ys
statuses-append (flushes ∷ xs) ys = statuses-append xs ys

pub bytes_of-append : (xs ys : List Sent) → bytes_of (xs ++ ys) ≡ bytes_of xs ++ bytes_of ys
bytes_of-append [] ys = refl
bytes_of-append (adds_header k v ∷ xs) ys = bytes_of-append xs ys
bytes_of-append (varies ∷ xs) ys = bytes_of-append xs ys
bytes_of-append (drops_length ∷ xs) ys = bytes_of-append xs ys
bytes_of-append (encodes ∷ xs) ys = bytes_of-append xs ys
bytes_of-append (writes_header n ∷ xs) ys = bytes_of-append xs ys
bytes_of-append (writes_body b ∷ xs) ys =
    ap (◌++◌ b) (bytes_of-append xs ys) ∙ sym (append_assoc b (bytes_of xs) (bytes_of ys))
bytes_of-append (flushes ∷ xs) ys = bytes_of-append xs ys

pub is_encoded-append :
    (xs ys : List Sent) → is_encoded (xs ++ ys) ≡ (is_encoded xs || is_encoded ys)
is_encoded-append [] ys = refl
is_encoded-append (adds_header k v ∷ xs) ys = is_encoded-append xs ys
is_encoded-append (varies ∷ xs) ys = is_encoded-append xs ys
is_encoded-append (drops_length ∷ xs) ys = is_encoded-append xs ys
is_encoded-append (encodes ∷ xs) ys = refl
is_encoded-append (writes_header n ∷ xs) ys = is_encoded-append xs ys
is_encoded-append (writes_body b ∷ xs) ys = is_encoded-append xs ys
is_encoded-append (flushes ∷ xs) ys = is_encoded-append xs ys

pub add_all_only :
    (h : Header)
    → (statuses (add_all h) ≡ []) × (bytes_of (add_all h) ≡ []) × (is_encoded (add_all h) ≡ false)
add_all_only [] = (refl, refl, refl)
add_all_only ((k, v) ∷ h) = add_all_only h

-- what `commitBuffered` sends behind the headers
abbrev pub begin : ℕ → List ℕ → List Sent
begin n body = writes_header n ∷ (if is_empty body then [] else writes_body body ∷ [])

pub begin_only :
    (n : ℕ) (body : List ℕ)
    → (statuses (begin n body) ≡ n ∷ [])
      × (bytes_of (begin n body) ≡ body)
      × (is_encoded (begin n body) ≡ false)
begin_only n [] = (refl, refl, refl)
begin_only n (b ∷ body) = (refl, append-nil (b ∷ body), refl)

-- what is sent once: headers, and then a status and a body
pub sent_once :
    (sent tail : List Sent) (header : Header) (n : ℕ) (body : List ℕ)
    → statuses sent ≡ []
    → bytes_of sent ≡ []
    → statuses tail ≡ n ∷ []
    → bytes_of tail ≡ body
    → (statuses (sent ++ (add_all header ++ tail)) ≡ n ∷ [])
      × (bytes_of (sent ++ (add_all header ++ tail)) ≡ body)
      × (is_encoded (sent ++ (add_all header ++ tail)) ≡ (is_encoded sent || is_encoded tail))
sent_once sent tail header n body none' nothing one all =
    let (no_status, no_bytes, no_mark) = add_all_only header in
    (
      ground (
        arith,
        statuses-append sent (add_all header ++ tail),
        statuses-append (add_all header) tail,
        no_status,
        none',
        one,
      ),
      ground (
        arith,
        bytes_of-append sent (add_all header ++ tail),
        bytes_of-append (add_all header) tail,
        no_bytes,
        nothing,
        all,
      ),
      ground (
        arith,
        is_encoded-append sent (add_all header ++ tail),
        is_encoded-append (add_all header) tail,
        no_mark,
      ),
    )
