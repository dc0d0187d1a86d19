-- ===== src/Merge/Accum/Endpoints.antt =====
-- src/usb_merge.c, `usb_merge_cache_endpoints`: where the merge finds the mouse and the keyboard.
use hurra_v.Base.{◌%◌, ◌&&◌, List, [], ◌∷◌, take, ◌==◌, if◌then◌else◌}
use hurra_v.Serial.{Iface, Captured}
use hurra_v.Hid.{no_layout}
use hurra_v.Hid.Parse.{hid_layout_parse_mouse}
use hurra_v.Merge.{Merge}

-- The round of one interface: the first mouse and the first keyboard count.
pub cache_iface : Merge → Iface → Merge
cache_iface m f =
    let ep = f.interrupt_in_ep % 16 in
    if f.interrupt_in_ep == 0
    then m
    else if (f.iface_protocol == 2) && (m.mouse_ep == 0)
    then record m {
      mouse_ep = ep;
      mouse_maxpkt = f.interrupt_in_maxpkt;
      layout = hid_layout_parse_mouse f.hid_report_desc.bytes f.hid_report_desc.len;
    }
    else if (f.iface_protocol == 1) && (m.kb_ep == 0)
    then record m { kb_ep = ep }
    else m

pub cache_ifaces : Merge → List Iface → Merge
cache_ifaces m [] = m
cache_ifaces m (f ∷ fs) = cache_ifaces (cache_iface m f) fs

pub usb_merge_cache_endpoints : Merge → Captured → Merge
usb_merge_cache_endpoints m desc =
    cache_ifaces (record m { mouse_ep = 0; kb_ep = 0; layout = no_layout; report_len = 0 })
      (take desc.num_ifaces desc.ifaces)
