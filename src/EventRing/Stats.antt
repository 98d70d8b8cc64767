-- ===== src/EventRing/Stats.antt =====
-- `get_stats` of src/ipc/mmap_buffer.py, and what it shows of a ring.
use infotact_python_project.Prelude.{
  ℕ, ◌-◌, ◌%◌, Bool, ◌||◌, ◌==◌, length, Result, ok, err, ◌≡◌, refl, sym, Bool-cases, inl, inr,
}
use infotact_python_project.EventRing.{
  Error, Header, Ring, read_header, unpack_header, close, inaccessible,
}
use infotact_python_project.EventRing.Layout.{dropped}
use infotact_python_project.EventRing.Log.{IsValid, contents, length-contents}

-- The dictionary that `get_stats` returns.
pub record Stats : Type 0 where
  pub capacity : ℕ
  pub record_size : ℕ
  pub head_seq : ℕ
  pub tail_seq : ℕ
  pub unread_records : ℕ
  pub dropped_count : ℕ
  pub is_closed : Bool

unfoldable pub stats_of : Ring → Header → Stats
stats_of r header = record {
  capacity = r.capacity;
  record_size = r.record_size;
  head_seq = header.head_seq;
  tail_seq = header.tail_seq;
  unread_records = header.head_seq - header.tail_seq;
  dropped_count = header.dropped_count;
  is_closed = r.is_closed || (header.flags % 2 == 1);
}

unfoldable pub get_stats : Ring → Result Error Stats
get_stats r = elim (read_header r) [ ok header ↦ ok (stats_of r header) | err e ↦ err e ]

-- On a ring in use: how many records wait, and how many were dropped.
pub get_stats_lem :
    (r : Ring)
    → IsValid r
    → (s : Stats) × (get_stats r ≡ ok s)
      × (s.unread_records ≡ length (contents r))
      × (s.dropped_count ≡ dropped r.map)
unfolding get_stats stats_of read_header unpack_header
get_stats_lem r v =
    (stats_of r (unpack_header r.map), rw v.opened refl, sym (length-contents r), refl)

-- A ring that was closed through this object raises.
pub get_stats-close : (r : Ring) → get_stats (close r) ≡ err inaccessible
unfolding get_stats read_header close
get_stats-close r = elim (Bool-cases r.is_closed) [ inl e ↦ rw e refl | inr e ↦ rw e refl ]
