-- ===== src/Protocol/Message/RoundTrip/Info.antt =====
-- The round trip of the node information, which holds a name, a serial number and the aliases.
use velux_to_mqtt_gw.Prelude.{
  ℕ, ◌+◌, ◌≤◌, List, [], ◌∷◌, ◌++◌, ◌≡◌, refl, ap, ◌∙◌, arith, length, take, drop, get_or,
  length-append, IsU16, ok, ◌>>=◌, byte, hi_byte,
}
use velux_to_mqtt_gw.Protocol.Frames.Bytes.{padded, length-padded}
use velux_to_mqtt_gw.Protocol.Frames.Nodes.{
  AliasEntry, after_name, after_serial, alias_array_bytes, alias_array_from_bytes, NodeInfo,
  marshal_node_info, unmarshal_node_info,
}
use velux_to_mqtt_gw.Protocol.Message.Wellformed.{IsU32, IsSettled}
use velux_to_mqtt_gw.Protocol.Message.RoundTrip.Small.{new_parameter-settled}
use velux_to_mqtt_gw.Protocol.Message.RoundTrip.Text.{
  HasNoNul, string_to_bytes-fits, bytes_to_string-padded, get_or-prefix, take-prefix,
  drop-prefix_more,
}

pub alias_array-round_trip :
    (es : List AliasEntry) → length es ≤ 5 → alias_array_from_bytes (alias_array_bytes es) ≡ ok es
unfolding alias_array_from_bytes alias_array_bytes padded
alias_array-round_trip [] h = refl
alias_array-round_trip (a ∷ []) h = refl
alias_array-round_trip (a ∷ b ∷ []) h = refl
alias_array-round_trip (a ∷ b ∷ c ∷ []) h = refl
alias_array-round_trip (a ∷ b ∷ c ∷ d ∷ []) h = refl
alias_array-round_trip (a ∷ b ∷ c ∷ d ∷ e ∷ []) h = refl
alias_array-round_trip (a ∷ b ∷ c ∷ d ∷ e ∷ f ∷ es) h = absurd (omega arith)

length-alias_array_bytes : (es : List AliasEntry) → length (alias_array_bytes es) ≡ 21
unfolding alias_array_bytes
length-alias_array_bytes es = length-padded 21 _

-- What the payload can carry, beside the widths of the single bytes.
pub record NodeInfoFits (n : NodeInfo) : Type 0 where
  pub order : IsU16 n.order
  pub name_length : length n.name ≤ 64
  pub name_text : HasNoNul n.name
  pub node_type : IsU16 n.node_type
  pub serial_number : length n.serial_number ≡ 8
  pub current_position : IsSettled n.current_position
  pub target : IsSettled n.target
  pub fp1 : IsSettled n.current_position_fp1
  pub fp2 : IsSettled n.current_position_fp2
  pub fp3 : IsSettled n.current_position_fp3
  pub fp4 : IsSettled n.current_position_fp4
  pub remaining_time : IsU16 n.remaining_time
  pub timestamp : IsU32 n.timestamp
  pub aliases : length n.alias_array ≤ 5

before_serial : NodeInfo → List ℕ
before_serial n =
    n.velocity
    ∷ hi_byte n.node_type
    ∷ byte n.node_type
    ∷ n.product_group
    ∷ n.product_type
    ∷ n.node_variation
    ∷ n.power_mode
    ∷ n.build_number
    ∷ []

-- Where the fields behind the serial number stand, and where the aliases do.
after_serial-get :
    (n : NodeInfo) (j : ℕ)
    → length n.serial_number ≡ 8
    → get_or (padded 64 n.name ++ after_name n) (64 + (16 + j)) 0 ≡ get_or (after_serial n) j 0
unfolding before_serial
after_serial-get n j h =
    get_or-prefix 64 (16 + j) (padded 64 n.name) (after_name n) (length-padded 64 n.name)
    ∙ ap (λ i. get_or (after_name n) i 0) (omega arith)
    ∙ get_or-prefix 8 (8 + j) (before_serial n) (n.serial_number ++ after_serial n) refl
    ∙ get_or-prefix 8 j n.serial_number (after_serial n) h

after_serial-drop :
    (n : NodeInfo)
    → length n.serial_number ≡ 8
    → drop 99 (padded 64 n.name ++ after_name n) ≡ alias_array_bytes n.alias_array
after_serial-drop n h =
    drop-prefix_more 64 35 (padded 64 n.name) (after_name n) (length-padded 64 n.name)
    ∙ drop-prefix_more 8 19 n.serial_number (after_serial n) h

serial-take :
    (n : NodeInfo)
    → length n.serial_number ≡ 8
    → take 8 (drop 72 (padded 64 n.name ++ after_name n)) ≡ n.serial_number
serial-take n h =
    ap (take 8) (drop-prefix_more 64 8 (padded 64 n.name) (after_name n) (length-padded 64 n.name))
    ∙ take-prefix 8 n.serial_number (after_serial n) h

pub node_info-round_trip :
    (n : NodeInfo) → NodeInfoFits n → (marshal_node_info n >>= unmarshal_node_info) ≡ ok n
unfolding marshal_node_info unmarshal_node_info
node_info-round_trip n h =
    let name = padded 64 n.name in
    let size = length-padded 64 n.name in
    let front = λ (i : ℕ). get_or-prefix 64 i name (after_name n) size in
    let back = λ (j : ℕ). after_serial-get n j h.serial_number in
    rw
      (
        string_to_bytes-fits 64 n.name h.name_length,
        length-append name,
        length-append n.serial_number,
        length-alias_array_bytes n.alias_array,
        size,
        h.serial_number,
        after_serial-drop n h.serial_number,
        alias_array-round_trip n.alias_array h.aliases,
        serial-take n h.serial_number,
        take-prefix 64 name (after_name n) size,
        bytes_to_string-padded 64 n.name h.name_text h.name_length,
        front 0,
        front 1,
        front 2,
        front 3,
        front 4,
        front 5,
        front 6,
        front 7,
        back 0,
        back 1,
        back 2,
        back 3,
        back 4,
        back 5,
        back 6,
        back 7,
        back 8,
        back 9,
        back 10,
        back 11,
        back 12,
        back 13,
        back 14,
        back 15,
        back 16,
        back 17,
        back 18,
      )
      (ground (
        arith,
        new_parameter-settled n.current_position h.current_position,
        new_parameter-settled n.target h.target,
        new_parameter-settled n.current_position_fp1 h.fp1,
        new_parameter-settled n.current_position_fp2 h.fp2,
        new_parameter-settled n.current_position_fp3 h.fp3,
        new_parameter-settled n.current_position_fp4 h.fp4,
      ))

-- The payload is the one of 124 bytes.
pub length-marshal_node_info :
    (n : NodeInfo)
    → NodeInfoFits n
    → (payload : List ℕ) × (marshal_node_info n ≡ ok payload) × (length payload ≡ 124)
unfolding marshal_node_info
length-marshal_node_info n h = (
  n.node_id ∷ hi_byte n.order ∷ byte n.order ∷ n.placement ∷ (padded 64 n.name ++ after_name n),
  rw (string_to_bytes-fits 64 n.name h.name_length),
  rw (
    length-append (padded 64 n.name),
    length-append n.serial_number,
    length-alias_array_bytes n.alias_array,
    length-padded 64 n.name,
    h.serial_number,
  ),
)
