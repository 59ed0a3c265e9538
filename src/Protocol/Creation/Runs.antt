-- ===== src/Protocol/Creation/Runs.antt =====
-- A run of the registration of creation.go, behind one that has been done.
use velux_to_mqtt_gw.Prelude.{[], ◌∷◌, ◌≡◌, refl, some}
use velux_to_mqtt_gw.Protocol.Message
use velux_to_mqtt_gw.Protocol.Message.{command}
use velux_to_mqtt_gw.Protocol.Creation.{Registry, register_all, register_frame, create_frame}
use velux_to_mqtt_gw.Protocol.Creation.Registry.{first_with, or_before, register_all-create}

abbrev before : Registry
before = (0x0001, Message.reboot_request) ∷ []

abbrev more : Registry
more = (0x0002, Message.reboot_confirmation) ∷ before

registration : register_all before (Message.reboot_confirmation ∷ []) ≡ some more
unfolding register_all register_frame create_frame command
registration = refl

register_all-create_example :
    (create_frame more 0x0001
      ≡ or_before
          (first_with 0x0001 (Message.reboot_confirmation ∷ []))
          (create_frame before 0x0001))
    × (create_frame more 0x0001
        ≡ or_before
            (create_frame before 0x0001)
            (first_with 0x0001 (Message.reboot_confirmation ∷ [])))
register_all-create_example =
    register_all-create before more (Message.reboot_confirmation ∷ []) 0x0001 registration
