-- ===== src/Klf200/Updater/Laws.antt =====
-- What the updater of node_updater.go keeps of a node, whatever the gateway sends.
use velux_to_mqtt_gw.Prelude.{
  ℕ, ◌≤◌, List, [], ◌∷◌, Bool, true, false, Option, none, some, ◌==◌, ◌≡◌, ◌⊎◌, refl, arith,
  if◌then◌else◌, ◌&&◌, not,
}
use velux_to_mqtt_gw.Protocol.Parameter.{Parameter, parameter_max, parameter_to_int}
use velux_to_mqtt_gw.Protocol.Frames.Status.{StatusRequestNotification, lookup}
use velux_to_mqtt_gw.Protocol.Frames.Limitation.{LimitationStatus}
use velux_to_mqtt_gw.Protocol.Message
use velux_to_mqtt_gw.Protocol.Message.{Frame}
use velux_to_mqtt_gw.Klf200.Node.{Node, Kind, is_opening_device, is_blind, is_light}
use velux_to_mqtt_gw.Klf200.Updater.{
  keep_plain, update_position, update_status, update_limitation, both, update_at, process_frame,
}

-- As before or, only where `may`, a plain position: at most MAX, so that no sentinel gets in.
abbrev pub IsFrom : Bool → Parameter → Parameter → Type 0
IsFrom may old new = (new ≡ old) ⊎ ((parameter_to_int new ≤ parameter_max) × (may ≡ true))

pub record IsRefined (old new : Node) : Type 0 where
  pub kind : new.kind ≡ old.kind
  pub node_id : new.node_id ≡ old.node_id
  pub name : new.name ≡ old.name
  pub serial_number : new.serial_number ≡ old.serial_number
  pub target_orientation : new.target_orientation ≡ old.target_orientation
  pub position : IsFrom (is_opening_device old.kind) old.position new.position
  pub target_position :
      IsFrom
        (is_opening_device old.kind && not (is_blind old.kind))
        old.target_position
        new.target_position
  pub orientation : IsFrom (is_blind old.kind) old.orientation new.orientation
  pub intensity : IsFrom (not (is_opening_device old.kind)) old.intensity new.intensity

same-IsRefined : (n : Node) → IsRefined n n
same-IsRefined n = ground arith

keep_plain-IsFrom :
    (may : Bool) (new old : Parameter) → may ≡ true → IsFrom may old (keep_plain new old)
keep_plain-IsFrom may new old h = ground arith

if-IsRefined :
    (b : Bool) (n x y : Node)
    → (b ≡ true → IsRefined n x)
    → (b ≡ false → IsRefined n y)
    → IsRefined n (if b then x else y)
if-IsRefined true n x y hx hy = hx refl
if-IsRefined false n x y hx hy = hy refl

blind_opens : (k : Kind) → is_blind k ≡ true → is_opening_device k ≡ true
unfolding is_blind is_opening_device
blind_opens k h = ground arith

update_position-IsRefined : (p t : Parameter) (n : Node) → IsRefined n (update_position p t n)
unfolding update_position
update_position-IsRefined p t n =
    if-IsRefined (is_blind n.kind) n _ _
      (λ b.
        ground
          (arith, blind_opens n.kind b, keep_plain-IsFrom (is_opening_device n.kind) p n.position))
      (λ b.
        if-IsRefined (is_opening_device n.kind) n _ _
          (λ o. ground (arith, keep_plain-IsFrom (is_opening_device n.kind) p n.position o))
          (λ o. if-IsRefined (is_light n.kind) n _ _ (λ l. ground arith) (λ l. same-IsRefined n)))

both-IsRefined :
    (mp fp3 : Option Parameter) (n : Node) → is_blind n.kind ≡ true → IsRefined n (both mp fp3 n)
unfolding both
both-IsRefined none none n h = same-IsRefined n
both-IsRefined none (some fp3) n h = same-IsRefined n
both-IsRefined (some mp) none n h = same-IsRefined n
both-IsRefined (some mp) (some fp3) n h = ground (arith, blind_opens n.kind h)

update_status-IsRefined :
    (f : StatusRequestNotification) (n : Node) → IsRefined n (update_status f n)
unfolding update_status
update_status-IsRefined f n =
    if-IsRefined (is_blind n.kind) n _ _
      (λ b. both-IsRefined (lookup 0 f.parameter_data) (lookup 3 f.parameter_data) n b)
      (λ b. same-IsRefined n)

update_limitation-IsRefined :
    (f : LimitationStatus) (n : Node) → IsRefined n (update_limitation f n)
unfolding update_limitation
update_limitation-IsRefined f n = ground arith

-- Node by node.
abbrev pub AreRefined : List Node → List Node → Type 0
AreRefined [] [] = Unit
AreRefined (m ∷ ms) (n ∷ ns) = IsRefined m n × AreRefined ms ns
AreRefined ms ns = ⊥

same_nodes : (nodes : List Node) → AreRefined nodes nodes
same_nodes [] = tt
same_nodes (n ∷ ns) = (same-IsRefined n, same_nodes ns)

update_at-refined :
    (id : ℕ) (change : Node → Node)
    → ((n : Node) → IsRefined n (change n))
    → (nodes : List Node) → AreRefined nodes (update_at id change nodes)
unfolding update_at
update_at-refined id change h [] = tt
update_at-refined id change h (n ∷ ns) = place (n.node_id == id) (update_at-refined id change h ns)
  where
    place :
        (b : Bool)
        → AreRefined ns (update_at id change ns)
        → AreRefined (n ∷ ns) (if b then change n ∷ ns else n ∷ update_at id change ns)
    place true rest = (h n, same_nodes ns)
    place false rest = (same-IsRefined n, rest)

-- Whatever frame arrives, the collection keeps its nodes, in their order, each with its id, name, serial
-- number and type. A position changes only to one that is at most MAX, never to a sentinel of the
-- protocol; a blind's target position never changes, and only a blind's orientation does.
pub process_frame-refined :
    (f : Frame) (nodes : List Node) → AreRefined nodes (process_frame f nodes)
unfolding process_frame
process_frame-refined (Message.all_nodes_notification f) nodes =
    update_at-refined f.node_id (update_position f.current_position f.target)
      (update_position-IsRefined f.current_position f.target) nodes
process_frame-refined (Message.position_changed f) nodes =
    update_at-refined f.node_id (update_position f.current_position f.target)
      (update_position-IsRefined f.current_position f.target) nodes
process_frame-refined (Message.status_request_notification f) nodes =
    update_at-refined f.node_id (update_status f) (update_status-IsRefined f) nodes
process_frame-refined (Message.limitation_status f) nodes =
    update_at-refined f.node_id (update_limitation f) (update_limitation-IsRefined f) nodes
process_frame-refined f nodes = same_nodes nodes
