-- ===== src/Protocol/Frames/Nodes.antt =====
-- app/klf200/protocol/frame_nodes.go: the node information frames. A name is the list of its bytes.
use velux_to_mqtt_gw.Prelude.{
  ℕ, zero, suc, List, [], ◌∷◌, ◌++◌, length, get_or, take, drop, ltb, ◌==◌, not, byte, Result, ok,
  ◌>>=◌, ◌>>◌, require,
}
use velux_to_mqtt_gw.Protocol.Wire.{Error, payload_len, invalid_alias_count}
use velux_to_mqtt_gw.Protocol.Parameter.{Parameter}
use velux_to_mqtt_gw.Protocol.Frames.Bytes.{
  u16_at, u16_bytes, u32_at, u32_bytes, padded, string_to_bytes, bytes_to_string,
}
use velux_to_mqtt_gw.Protocol.Frames.Commands.{parameter_at, parameter_bytes}
use velux_to_mqtt_gw.Protocol.Frames.Limitation.{raw_at}

-- An alias: a type and a value, of two bytes each.
pub record AliasEntry : Type 0 where
  pub typ : Parameter
  pub val : Parameter

alias_entries : ℕ → List ℕ → List AliasEntry
alias_entries zero raw = []
alias_entries (suc n) raw =
    record { typ = raw_at raw 0; val = raw_at raw 2 } ∷ alias_entries n (drop 4 raw)

unfoldable pub alias_array_from_bytes : List ℕ → Result Error (List AliasEntry)
unfolding alias_entries
alias_array_from_bytes raw = do
  require (length raw == 21) (payload_len (length raw) 21)
  require (not (ltb 5 (get_or raw 0 0))) (invalid_alias_count (get_or raw 0 0))
  ok (alias_entries (get_or raw 0 0) (drop 1 raw))

entry_list : List AliasEntry → List ℕ
entry_list [] = []
entry_list (e ∷ es) = parameter_bytes e.typ (parameter_bytes e.val (entry_list es))

-- `AliasArray.Bytes`: 21 bytes, the entries first.
unfoldable pub alias_array_bytes : List AliasEntry → List ℕ
unfolding entry_list
alias_array_bytes es = padded 21 (byte (length es) ∷ entry_list es)

pub record NodeInfo : Type 0 where
  pub node_id : ℕ
  pub order : ℕ  -- uint16
  pub placement : ℕ
  pub name : List ℕ
  pub velocity : ℕ
  pub node_type : ℕ  -- uint16
  pub product_group : ℕ
  pub product_type : ℕ
  pub node_variation : ℕ
  pub power_mode : ℕ
  pub build_number : ℕ
  pub serial_number : List ℕ  -- 8 bytes
  pub state : ℕ
  pub current_position : Parameter
  pub target : Parameter
  pub current_position_fp1 : Parameter
  pub current_position_fp2 : Parameter
  pub current_position_fp3 : Parameter
  pub current_position_fp4 : Parameter
  pub remaining_time : ℕ  -- uint16
  pub timestamp : ℕ  -- uint32
  pub alias_array : List AliasEntry

-- The part of the payload behind the name, and the part behind the serial number.
abbrev pub after_serial : NodeInfo → List ℕ
after_serial n =
    n.state
    ∷ parameter_bytes n.current_position (
        parameter_bytes n.target (
          parameter_bytes n.current_position_fp1 (
            parameter_bytes n.current_position_fp2 (
              parameter_bytes n.current_position_fp3 (
                parameter_bytes n.current_position_fp4 (
                  u16_bytes n.remaining_time
                    (u32_bytes n.timestamp (alias_array_bytes n.alias_array))))))))

abbrev pub after_name : NodeInfo → List ℕ
after_name n =
    n.velocity
    ∷ u16_bytes n.node_type (
        n.product_group
        ∷ n.product_type
        ∷ n.node_variation
        ∷ n.power_mode
        ∷ n.build_number
        ∷ (n.serial_number ++ after_serial n))

unfoldable pub marshal_node_info : NodeInfo → Result Error (List ℕ)
marshal_node_info n = do
  name_bytes ← string_to_bytes n.name 64
  ok (n.node_id ∷ u16_bytes n.order (n.placement ∷ (name_bytes ++ after_name n)))

-- The indices are those of the source.
unfoldable pub unmarshal_node_info : List ℕ → Result Error NodeInfo
unmarshal_node_info p = do
  require (length p == 124) (payload_len (length p) 124)
  aliases ← alias_array_from_bytes (drop 103 p)
  ok (record {
    node_id = get_or p 0 0;
    order = u16_at p 1;
    placement = get_or p 3 0;
    name = bytes_to_string (take 64 (drop 4 p));
    velocity = get_or p 68 0;
    node_type = u16_at p 69;
    product_group = get_or p 71 0;
    product_type = get_or p 72 0;
    node_variation = get_or p 73 0;
    power_mode = get_or p 74 0;
    build_number = get_or p 75 0;
    serial_number = take 8 (drop 76 p);
    state = get_or p 84 0;
    current_position = parameter_at p 85;
    target = parameter_at p 87;
    current_position_fp1 = parameter_at p 89;
    current_position_fp2 = parameter_at p 91;
    current_position_fp3 = parameter_at p 93;
    current_position_fp4 = parameter_at p 95;
    remaining_time = u16_at p 97;
    timestamp = u32_at p 99;
    alias_array = aliases;
  })

-- GW_GET_ALL_NODES_INFORMATION_CFM
pub record AllNodesConfirmation : Type 0 where
  pub status : ℕ
  pub number_of_nodes : ℕ

unfoldable pub marshal_all_nodes_confirmation : AllNodesConfirmation → List ℕ
marshal_all_nodes_confirmation f = f.status ∷ f.number_of_nodes ∷ []

unfoldable pub unmarshal_all_nodes_confirmation :
    AllNodesConfirmation → List ℕ → Result Error AllNodesConfirmation
unmarshal_all_nodes_confirmation f p = do
  require (length p == 2) (payload_len (length p) 2)
  ok (record f { status = get_or p 0 0; number_of_nodes = get_or p 1 0 })
