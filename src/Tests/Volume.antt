-- ===== src/Tests/Volume.antt =====
-- The theorems of Action/Volume/Resize at the host of Fixtures.
use libvirt_operator.Util.Bytes.{convert_to_bytes}
use libvirt_operator.Action.Volume.Resize.{live_resize, live_resize-ResizesOnce, ResizesOnce}
use libvirt_operator.Tests.Fixtures.{machine, volume_action, at}

live_resize-ResizesOnce_example :
    ResizesOnce {O = Unit}
      (convert_to_bytes 12 "GiB")
      (at 0)
      (live_resize machine "vm" "GiB" 12 (volume_action "base") (at 0))
live_resize-ResizesOnce_example =
    live_resize-ResizesOnce machine "GiB" 12 "vm" (volume_action "base") (at 0)
