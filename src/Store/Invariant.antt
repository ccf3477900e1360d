-- ===== src/Store/Invariant.antt =====
-- What holds of every store that the operations build: no key stands twice, and each object stands
-- under its own key.
use go_build_cache.Prelude.{String}
use go_build_cache.Prelude.Maps.{
  get, put, Unique, KeyedBy, put-Unique, delete-Unique, put-KeyedBy, delete-KeyedBy, string_eq,
}
use go_build_cache.Model.{Session, Entry, Pin, PinRequest, EvictionDecision, GcRecord}
use go_build_cache.Store.{MemoryStore, entry_map_key, new_memory_store}
use go_build_cache.Store.Audit.{append_audit}
use go_build_cache.Store.Entries.{delete_entry}
use go_build_cache.Store.Pins.{save_pin, save_pin_request}
use go_build_cache.Store.Decisions.{save_decision}

abbrev pub entry_key : Entry → String
entry_key e = entry_map_key e.namespace e.key

abbrev pub pin_key : Pin → String
pin_key p = entry_map_key p.namespace p.key

abbrev pub session_key : Session → String
session_key s = s.id

pub record IsKeyed (m : MemoryStore) : Type 0 where
  pub unique_entries : Unique m.entries
  pub unique_pins : Unique m.pins
  pub unique_sessions : Unique m.sessions
  pub entries_at : KeyedBy entry_key m.entries
  pub pins_at : KeyedBy pin_key m.pins
  pub sessions_at : KeyedBy session_key m.sessions

pub IsKeyed-new : IsKeyed new_memory_store
unfolding get
IsKeyed-new = record {
  unique_entries = tt;
  unique_pins = tt;
  unique_sessions = tt;
  entries_at = λ k v h. cc;
  pins_at = λ k v h. cc;
  sessions_at = λ k v h. cc;
}

module _ (m : MemoryStore) (v : IsKeyed m) where
  pub save_pin-IsKeyed : (p : Pin) → IsKeyed (save_pin p m)
  unfolding save_pin
  save_pin-IsKeyed p = record {
    unique_entries = v.unique_entries;
    unique_pins = put-Unique (pin_key p) p m.pins v.unique_pins;
    unique_sessions = v.unique_sessions;
    entries_at = v.entries_at;
    pins_at = put-KeyedBy pin_key p m.pins v.pins_at;
    sessions_at = v.sessions_at;
  }

  pub put_entries-IsKeyed :
      (e : Entry) → IsKeyed (record m { entries = put (entry_key e) e m.entries })
  put_entries-IsKeyed e = record {
    unique_entries = put-Unique (entry_key e) e m.entries v.unique_entries;
    unique_pins = v.unique_pins;
    unique_sessions = v.unique_sessions;
    entries_at = put-KeyedBy entry_key e m.entries v.entries_at;
    pins_at = v.pins_at;
    sessions_at = v.sessions_at;
  }

  pub delete_entry-IsKeyed : (ns key : String) → IsKeyed (delete_entry ns key m)
  unfolding delete_entry
  delete_entry-IsKeyed ns key = record {
    unique_entries = delete-Unique (entry_map_key ns key) m.entries v.unique_entries;
    unique_pins = v.unique_pins;
    unique_sessions = v.unique_sessions;
    entries_at = delete-KeyedBy entry_key (entry_map_key ns key) m.entries v.entries_at;
    pins_at = v.pins_at;
    sessions_at = v.sessions_at;
  }

  pub append_audit-IsKeyed : (rec : GcRecord) → IsKeyed (append_audit rec m)
  unfolding append_audit
  append_audit-IsKeyed rec = record {
    unique_entries = v.unique_entries;
    unique_pins = v.unique_pins;
    unique_sessions = v.unique_sessions;
    entries_at = v.entries_at;
    pins_at = v.pins_at;
    sessions_at = v.sessions_at;
  }

  pub save_pin_request-IsKeyed : (rec : PinRequest) → IsKeyed (save_pin_request rec m)
  unfolding save_pin_request
  save_pin_request-IsKeyed rec = record {
    unique_entries = v.unique_entries;
    unique_pins = v.unique_pins;
    unique_sessions = v.unique_sessions;
    entries_at = v.entries_at;
    pins_at = v.pins_at;
    sessions_at = v.sessions_at;
  }

  pub save_decision-IsKeyed : (d : EvictionDecision) → IsKeyed (save_decision d m)
  unfolding save_decision
  save_decision-IsKeyed d = record {
    unique_entries = v.unique_entries;
    unique_pins = v.unique_pins;
    unique_sessions = v.unique_sessions;
    entries_at = v.entries_at;
    pins_at = v.pins_at;
    sessions_at = v.sessions_at;
  }
