-- ===== src/Btree/Recovery.antt =====
-- btree/btree.go: New with the recovery from the log, Sync and Close. The log of the tree is the one
-- that its pager writes to.
use storage_engines.Base.{
  ℕ, ◌+◌, ◌%◌, ◌^◌, true, false, List, [], ◌∷◌, ◌++◌, length, ltb, ◌==◌, max, if◌then◌else◌, Option,
  none, some, Outcome, ok, err, Error, panic_slice, closed,
}
use storage_engines.Base.Int.{pos}
use storage_engines.Base.Table.{put, include}
use storage_engines.Bytes.{Bytes}
use storage_engines.Bytes.Patch.{patch}
use storage_engines.Btree.Page.{Page, new_page, page_type_leaf, page_size}
use storage_engines.Btree.Wal.{
  Wal, WalRecord, Records, wal_record_page_write, new_wal, read_all, truncate, log_checkpoint,
}
use storage_engines.Btree.Wal
use storage_engines.Btree.Pager.{Pager, page_at, get_page, new_pager}
use storage_engines.Btree.Pager
use storage_engines.Btree.Tree.{Btree}

-- A page that cannot be got is made, in the cache only.
abbrev made : Pager → ℕ → ℕ × Pager
made p page_id = (
  length p.heap,
  record p {
    heap = p.heap ++ (new_page page_id page_type_leaf ∷ []);
    cache = put page_id (length p.heap) p.cache;
  },
)

abbrev got : ℕ → Outcome ℕ × Pager → ℕ × Pager
got page_id (ok address, p) = (address, p)
got page_id (err e, p) = made p page_id

abbrev written_over : Page → WalRecord → Page
written_over page r = record page {
  bytes = patch page.bytes r.page_offset r.page_data;
  dirty = true;
}

-- The end of the range is a uint32; a range that ends before it starts panics.
unfoldable pub apply_page_write : Pager → WalRecord → Outcome Pager
unfolding get_page new_page put include patch
apply_page_write p r =
    let (address, q) = got r.page_id (get_page p r.page_id) in
    let stop = (r.page_offset + r.size) % 2 ^ 32 in
    let applied = Pager.store_page q address (written_over (page_at q address) r) in
    if ltb page_size stop
    then ok q
    else if ltb stop r.page_offset
    then err panic_slice
    else ok (record applied { dirty = include r.page_id applied.dirty })

-- A checkpoint only leaves the switch.
unfoldable pub apply_records : Pager → List WalRecord → Outcome Pager
unfolding apply_page_write
apply_records p [] = ok p
apply_records p (r ∷ rs) =
    elim (if r.kind == wal_record_page_write then apply_page_write p r else ok p) [
      | err e ↦ err e
      | ok q ↦ apply_records q rs
    ]

abbrev max_page : ℕ → List (ℕ × ℕ) → ℕ
max_page m [] = m
max_page m ((page_id, address) ∷ cache) = max_page (max m page_id) cache

unfoldable pub recount : Pager → Pager
recount p = record p {
  metadata = record p.metadata { num_pages = (max_page p.metadata.num_pages p.cache + 1) % 2 ^ 32 };
}

abbrev finished : Option Error × Pager → Wal → Outcome (Pager × Wal)
finished (some e, p) w = err e
finished (none, p) w = ok (p, truncate w)

-- `recoverFromWAL`, while the pager does not log.
abbrev recovered : Pager → Wal → Records → Outcome (Pager × Wal)
recovered p w (records, some e) = err e
recovered p w ([], none) = ok (p, w)
recovered p w (r ∷ rs, none) = elim (apply_records p (r ∷ rs)) [
  | err e ↦ err e
  | ok q ↦ finished (Pager.sync (recount q)) w
]

unfoldable pub recover_from_wal : Pager → Wal → Outcome (Pager × Wal)
unfolding read_all apply_records recount Pager.sync truncate
recover_from_wal p w = recovered p w (read_all w)

abbrev opened : Pager × Wal → Btree
opened (p, w) = record { pager = record p { wal = some w }; closed = false; num_keys = pos 0 }

-- `New`, on the bytes of the two files.
unfoldable pub open_btree : Option Bytes → Bytes → ℕ → Outcome Btree
unfolding new_pager new_wal recover_from_wal
open_btree file log cache_size = elim (new_pager file cache_size) [
  | err e ↦ err e
  | ok p ↦ elim (new_wal log) [
    | err e ↦ err e
    | ok w ↦ elim (recover_from_wal p w) [ err e ↦ err e | ok r ↦ ok (opened r) ]
  ]
]

abbrev on_wal : (Wal → Wal) → Pager → Pager
on_wal f p = record p { wal = elim p.wal [ none ↦ none | some w ↦ some (f w) ] }

abbrev synced_tree : Btree → Option Error × Pager → Option Error × Btree
synced_tree b (some e, p) = (some e, record b { pager = p })
synced_tree b (none, p) =
    (none, record b { pager = on_wal (λ w. truncate (Wal.sync (log_checkpoint w))) p })

-- `Sync`: the log, the pages, a checkpoint, and the log is emptied.
unfoldable pub sync : Btree → Option Error × Btree
unfolding Pager.sync Wal.sync log_checkpoint truncate
sync b = if b.closed then (some closed, b) else synced_tree b (Pager.sync (on_wal Wal.sync b.pager))

abbrev closed_tree : Btree → Option Error × Pager → Option Error × Btree
closed_tree b (some e, p) = (some e, record b { pager = p; closed = true })
closed_tree b (none, p) =
    (none, record b { pager = Pager.close (on_wal log_checkpoint p); closed = true })

unfoldable pub close : Btree → Option Error × Btree
unfolding Pager.sync Pager.close Wal.sync log_checkpoint
close b = if b.closed then (none, b) else closed_tree b (Pager.sync (on_wal Wal.sync b.pager))
