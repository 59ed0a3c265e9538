-- ===== src/Protocol/Message/RoundTrip/Text.antt =====
-- The round trips of strings, and of the frames that hold one. A string that is sent holds no NUL, at
-- which `bytesToString` stops.
use velux_to_mqtt_gw.Prelude.{
  ℕ, zero, suc, ◌≤◌, List, [], ◌∷◌, ◌++◌, ◌≡◌, ◌≢◌, refl, ap, arith, All, length, take, drop,
  get_or, replicate, take-append, drop-append, length-append, IsU16, ok, ◌>>=◌, ◌+◌, byte, hi_byte,
}
use native.Mathlib.Nat.{suc-add}
use velux_to_mqtt_gw.Protocol.Frames.Bytes.{padded, length-padded, string_to_bytes, bytes_to_string}
use velux_to_mqtt_gw.Protocol.Frames.Auth.{
  PasswordEnterRequest, marshal_password_enter_request, unmarshal_password_enter_request,
  PasswordChangeRequest, marshal_password_change_request, unmarshal_password_change_request,
  PasswordChangeNotification, marshal_password_change_notification,
  unmarshal_password_change_notification,
}
use velux_to_mqtt_gw.Protocol.Frames.Naming.{
  SetNodeNameRequest, marshal_set_node_name_request, unmarshal_set_node_name_request,
  NodeInformationChanged, marshal_node_information_changed, unmarshal_node_information_changed,
}

abbrev pub HasNoNul : List ℕ → Type 0
HasNoNul = All (λ b. b ≢ 0)

bytes_to_string-zeros : (n : ℕ) → bytes_to_string (replicate n 0) ≡ []
unfolding bytes_to_string
bytes_to_string-zeros zero = refl
bytes_to_string-zeros (suc n) = refl

bytes_to_string-take :
    (n k : ℕ) (s : List ℕ)
    → HasNoNul s
    → length s ≤ n
    → n ≤ k
    → bytes_to_string (take n (s ++ replicate k 0)) ≡ s
unfolding bytes_to_string
bytes_to_string-take zero k [] h l m = refl
bytes_to_string-take (suc n) zero [] h l m = absurd (omega arith)
bytes_to_string-take (suc n) (suc k) [] h l m = refl
bytes_to_string-take zero k (x ∷ s) h l m = absurd (omega arith)
bytes_to_string-take (suc n) k (x ∷ s) h l m = ground (arith, bytes_to_string-take n k s h.1)

pub bytes_to_string-padded :
    (n : ℕ) (s : List ℕ) → HasNoNul s → length s ≤ n → bytes_to_string (padded n s) ≡ s
unfolding padded
bytes_to_string-padded n s h l = bytes_to_string-take n n s h l (omega arith)

pub string_to_bytes-fits :
    (n : ℕ) (s : List ℕ) → length s ≤ n → string_to_bytes s n ≡ ok (padded n s)
unfolding string_to_bytes
string_to_bytes-fits n s h = ground arith

-- What stands behind the first `n` bytes of a list.
pub take-prefix : (n : ℕ) (xs ys : List ℕ) → length xs ≡ n → take n (xs ++ ys) ≡ xs
take-prefix n xs ys h = rw (← h) (take-append xs ys)

pub drop-prefix : (n : ℕ) (xs ys : List ℕ) → length xs ≡ n → drop n (xs ++ ys) ≡ ys
drop-prefix n xs ys h = rw (← h) (drop-append xs ys)

pub password_enter_request-round_trip :
    (e f : PasswordEnterRequest)
    → length f.password ≢ 0
    → length f.password ≤ 32
    → HasNoNul f.password
    → (marshal_password_enter_request f >>= unmarshal_password_enter_request e) ≡ ok f
unfolding marshal_password_enter_request unmarshal_password_enter_request
password_enter_request-round_trip e f h l n = ground (
  arith,
  string_to_bytes-fits 32 f.password l,
  length-padded 32 f.password,
  bytes_to_string-padded 32 f.password n l,
)

pub drop-prefix_more :
    (n i : ℕ) (xs ys : List ℕ) → length xs ≡ n → drop (n + i) (xs ++ ys) ≡ drop i ys
drop-prefix_more zero i [] ys h = ground arith
drop-prefix_more zero i (x ∷ xs) ys h = absurd (omega arith)
drop-prefix_more (suc n) i [] ys h = absurd (omega arith)
drop-prefix_more (suc n) i (x ∷ xs) ys h = rw suc-add (drop-prefix_more n i xs ys (omega arith))

pub take_all : (n : ℕ) (xs : List ℕ) → length xs ≤ n → take n xs ≡ xs
take_all zero [] h = refl
take_all zero (x ∷ xs) h = absurd (omega arith)
take_all (suc n) [] h = refl
take_all (suc n) (x ∷ xs) h = ap (λ l. x ∷ l) (take_all n xs (omega arith))

pub get_or-prefix :
    (n i : ℕ) (xs ys : List ℕ) → length xs ≡ n → get_or (xs ++ ys) (n + i) 0 ≡ get_or ys i 0
get_or-prefix zero i [] ys h = ground arith
get_or-prefix zero i (x ∷ xs) ys h = absurd (omega arith)
get_or-prefix (suc n) i [] ys h = absurd (omega arith)
get_or-prefix (suc n) i (x ∷ xs) ys h = ground (arith, get_or-prefix n i xs ys)

pub set_node_name_request-round_trip :
    (e f : SetNodeNameRequest)
    → length f.name ≤ 64
    → HasNoNul f.name
    → (marshal_set_node_name_request f >>= unmarshal_set_node_name_request e) ≡ ok f
unfolding marshal_set_node_name_request unmarshal_set_node_name_request
set_node_name_request-round_trip e f l n = rw (
  string_to_bytes-fits 64 f.name l,
  length-padded 64 f.name,
  take_all 64 (padded 64 f.name) (omega (arith, length-padded 64 f.name)),
  bytes_to_string-padded 64 f.name n l,
)

pub password_change_notification-round_trip :
    (e f : PasswordChangeNotification)
    → length f.new_password ≢ 0
    → length f.new_password ≤ 32
    → HasNoNul f.new_password
    → (marshal_password_change_notification f >>= unmarshal_password_change_notification e) ≡ ok f
unfolding marshal_password_change_notification unmarshal_password_change_notification
password_change_notification-round_trip e f h l n = ground (
  arith,
  string_to_bytes-fits 32 f.new_password l,
  length-padded 32 f.new_password,
  bytes_to_string-padded 32 f.new_password n l,
)

pub password_change_request-round_trip :
    (e f : PasswordChangeRequest)
    → length f.current_password ≢ 0
    → length f.current_password ≤ 32
    → HasNoNul f.current_password
    → length f.new_password ≢ 0
    → length f.new_password ≤ 32
    → HasNoNul f.new_password
    → (marshal_password_change_request f >>= unmarshal_password_change_request e) ≡ ok f
unfolding marshal_password_change_request unmarshal_password_change_request
password_change_request-round_trip e f ch cl cn nh nl nn =
    let current = padded 32 f.current_password in
    let new = padded 32 f.new_password in
    ground (
      arith,
      string_to_bytes-fits 32 f.current_password cl,
      string_to_bytes-fits 32 f.new_password nl,
      length-append current new,
      length-padded 32 f.current_password,
      length-padded 32 f.new_password,
      take-prefix 32 current new (length-padded 32 f.current_password),
      drop-prefix 32 current new (length-padded 32 f.current_password),
      bytes_to_string-padded 32 f.current_password cn cl,
      bytes_to_string-padded 32 f.new_password nn nl,
    )

pub node_information_changed-round_trip :
    (e f : NodeInformationChanged)
    → length f.name ≤ 64
    → HasNoNul f.name
    → IsU16 f.order
    → (marshal_node_information_changed f >>= unmarshal_node_information_changed e) ≡ ok f
unfolding marshal_node_information_changed unmarshal_node_information_changed
node_information_changed-round_trip e f l n o =
    let name = padded 64 f.name in
    let rest = hi_byte f.order ∷ byte f.order ∷ f.placement ∷ f.node_variation ∷ [] in
    let size = length-padded 64 f.name in
    rw
      (
        string_to_bytes-fits 64 f.name l,
        length-append name rest,
        size,
        take-prefix 64 name rest size,
        get_or-prefix 64 0 name rest size,
        get_or-prefix 64 1 name rest size,
        get_or-prefix 64 2 name rest size,
        get_or-prefix 64 3 name rest size,
        bytes_to_string-padded 64 f.name n l,
      )
      (ground arith)
