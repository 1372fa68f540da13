-- ===== src/Btree/Pager.antt =====
-- btree/pager.go: pages in a file, behind a cache. Pages are shared: the cache maps a page number to
-- the address of a page object, and an evicted object lives on for who holds its address. The file is
-- the list of its bytes; writing does not fail, and a read that ends before it is full does.
pub mod File
pub mod Cache
pub mod Evict
pub mod Transparent
pub mod Change
pub mod Durable
pub mod Objects
use storage_engines.Base.{
  Bool, Error, List, Option, Outcome, [], database_closed, end_of_file, err, false, get_or,
  if◌then◌else◌, invalid_database, leb, length, ltb, none, not, ok, page_out_of_bounds, replicate,
  set, some, true, ℕ, ◌%◌, ◌*◌, ◌++◌, ◌+◌, ◌-◌, ◌==◌, ◌>>=◌, ◌^◌, ◌∷◌,
}
use storage_engines.Base.Table.{find, include, member, put, remove, without}
use storage_engines.Bytes.{Bytes}
use storage_engines.Bytes.Endian.{put_be}
use storage_engines.Bytes.Slice.{slice}
use storage_engines.Btree.Page.{Page, be_at, load_page, new_page, page_size, page_type_leaf}
use storage_engines.Btree.Wal.{Wal, log_page_write, write_at}

abbrev pub metadata_magic : ℕ
metadata_magic = 0x42545245

pub record Metadata : Type 0 where
  pub magic : ℕ
  pub root_page_id : ℕ
  pub num_pages : ℕ
  pub free_list_ptr : ℕ

-- `lru` has the page used last in front; `lruMap` holds the numbers that are in it.
pub record Pager : Type 0 where
  pub file : Bytes
  pub heap : List Page
  pub cache : List (ℕ × ℕ)
  pub lru : List ℕ
  pub cache_size : ℕ
  pub dirty : List ℕ
  pub metadata : Metadata
  pub closed : Bool
  pub wal : Option Wal

abbrev pub u32 : ℕ → ℕ
u32 n = n % 2 ^ 32

abbrev pub blank_page : Page
blank_page = record { id = 0; bytes = []; page_type = 0; dirty = false }

-- The page object at an address.
abbrev pub page_at : Pager → ℕ → Page
page_at p address = get_or p.heap address blank_page

abbrev pub store_page : Pager → ℕ → Page → Pager
store_page p address page = record p { heap = set p.heap address page }

abbrev clean : Page → Page
clean page = record page { dirty = false }

unfoldable pub metadata_bytes : Metadata → Bytes
unfolding put_be
metadata_bytes m =
    put_be 4 m.magic
    ++ (put_be 4 m.root_page_id
        ++ (put_be 4 m.num_pages ++ (put_be 4 m.free_list_ptr ++ replicate (page_size - 16) 0)))

unfoldable pub write_metadata : Pager → Pager
unfolding write_at metadata_bytes
write_metadata p = record p { file = write_at p.file (metadata_bytes p.metadata) 0 }

unfoldable pub read_metadata : Bytes → Outcome Metadata
unfolding be_at
read_metadata file =
    if ltb (length file) page_size
    then err end_of_file
    else if not (be_at 0 4 file == metadata_magic)
    then err invalid_database
    else ok (record {
      magic = be_at 0 4 file;
      root_page_id = be_at 4 4 file;
      num_pages = be_at 8 4 file;
      free_list_ptr = be_at 12 4 file;
    })

unfoldable pub write_page : Pager → Page → Pager
unfolding write_at
write_page p page = record p { file = write_at p.file page.bytes (page.id * page_size) }

abbrev empty_pager : Bytes → ℕ → Metadata → Pager
empty_pager file cache_size metadata = record {
  file = file;
  heap = [];
  cache = [];
  lru = [];
  cache_size = cache_size;
  dirty = [];
  metadata = metadata;
  closed = false;
  wal = none;
}

unfoldable pub create_pager : ℕ → Pager
unfolding write_metadata write_page new_page
create_pager cache_size =
    write_page
      (write_metadata (
        empty_pager [] cache_size
          (record { magic = metadata_magic; root_page_id = 1; num_pages = 2; free_list_ptr = 0 })))
      (new_page 1 page_type_leaf)

unfoldable pub load_pager : Bytes → ℕ → Outcome Pager
unfolding read_metadata
load_pager file cache_size =
    read_metadata file >>= λ metadata. ok (empty_pager file cache_size metadata)

-- `NewPager`, on the bytes of the file, if there is one.
unfoldable pub new_pager : Option Bytes → ℕ → Outcome Pager
unfolding create_pager load_pager
new_pager none cache_size = ok (create_pager cache_size)
new_pager (some file) cache_size = load_pager file cache_size

abbrev loaded : Option Page → Outcome Page
loaded none = err invalid_database
loaded (some page) = ok page

unfoldable pub read_page : Pager → ℕ → Outcome Page
unfolding slice load_page
read_page p page_id =
    if leb p.metadata.num_pages page_id
    then err page_out_of_bounds
    else if ltb (length p.file) (page_id * page_size + page_size)
    then err end_of_file
    else loaded (load_page page_id (slice (page_id * page_size) page_size p.file))

abbrev last : List ℕ → Option ℕ
last [] = none
last (i ∷ []) = some i
last (i ∷ j ∷ is) = last (j ∷ is)

abbrev drop_last : List ℕ → List ℕ
drop_last [] = []
drop_last (i ∷ []) = []
drop_last (i ∷ j ∷ is) = i ∷ drop_last (j ∷ is)

-- A dirty page that is in the cache is written, and is clean then.
abbrev flush_cached : Pager → ℕ → Option ℕ → Pager
flush_cached p page_id none = p
flush_cached p page_id (some address) =
    store_page (record (write_page p (page_at p address)) { dirty = without page_id p.dirty })
      address (clean (page_at p address))

abbrev evict : Pager → Option ℕ → Pager
evict p none = p
evict p (some page_id) =
    let flushed =
      if member page_id p.dirty then flush_cached p page_id (find page_id p.cache) else p in
    record flushed { cache = remove page_id flushed.cache; lru = drop_last flushed.lru }

unfoldable pub evict_lru : Pager → Pager
unfolding write_page find remove member without
evict_lru p = evict p (last p.lru)

-- A new page object, in the cache.
unfoldable pub add_to_cache : Pager → ℕ → Page → ℕ × Pager
unfolding evict_lru put
add_to_cache p page_id page =
    let room = if leb p.cache_size (length p.lru) then evict_lru p else p in
    (
      length room.heap,
      record room {
        heap = room.heap ++ (page ∷ []);
        cache = put page_id (length room.heap) room.cache;
        lru = page_id ∷ room.lru;
      },
    )

-- `GetPage`: the address of the page object.
abbrev touch : ℕ → List ℕ → List ℕ
touch page_id lru = if member page_id lru then page_id ∷ without page_id lru else lru

abbrev fetched : Pager → ℕ → Outcome Page → Outcome ℕ × Pager
fetched p page_id (err e) = (err e, p)
fetched p page_id (ok page) = let (address, p') = add_to_cache p page_id page in (ok address, p')

abbrev cached : Pager → ℕ → Option ℕ → Outcome ℕ × Pager
cached p page_id (some address) = (ok address, record p { lru = touch page_id p.lru })
cached p page_id none = fetched p page_id (read_page p page_id)

unfoldable pub get_page : Pager → ℕ → Outcome ℕ × Pager
unfolding find read_page add_to_cache
get_page p page_id =
    if p.closed then (err database_closed, p) else cached p page_id (find page_id p.cache)

-- `NewPage`; pages of the free list are not used again.
unfoldable pub allocate_page : Pager → ℕ → Outcome ℕ × Pager
unfolding add_to_cache new_page include
allocate_page p page_type =
    let page_id = p.metadata.num_pages in
    let counted = record p { metadata = record p.metadata { num_pages = u32 (page_id + 1) } } in
    let (address, p') = add_to_cache counted page_id (new_page page_id page_type) in
    if p.closed
    then (err database_closed, p)
    else (ok address, record p' { dirty = include page_id p'.dirty })

abbrev log_page : Option Wal → ℕ → Page → Option Wal
log_page none page_id page = none
log_page (some w) page_id page = some (log_page_write w page_id 0 page.bytes)

abbrev marked : Pager → ℕ → Option ℕ → Pager
marked p page_id none = p
marked p page_id (some address) = record p {
  wal = log_page p.wal page_id (page_at p address);
  heap = set p.heap address (record (page_at p address) { dirty = true });
  dirty = include page_id p.dirty;
}

unfoldable pub mark_dirty : Pager → ℕ → Pager
unfolding find log_page_write include
mark_dirty p page_id = marked p page_id (find page_id p.cache)

unfoldable pub free_page : Pager → ℕ → Pager
unfolding find remove without
free_page p page_id = elim (find page_id p.cache) [
  | none ↦ record p { dirty = without page_id p.dirty }
  | some address ↦ record p {
    cache = remove page_id p.cache;
    lru = without page_id p.lru;
    dirty = without page_id p.dirty;
  }
]

-- The range over the dirty pages of `Flush` and `Close`.
abbrev flush_one : Pager → Option ℕ → Pager
flush_one p none = p
flush_one p (some address) =
    store_page (write_page p (page_at p address)) address (clean (page_at p address))

unfoldable pub flush_pages : Pager → List ℕ → Pager
unfolding find write_page
flush_pages p [] = p
flush_pages p (page_id ∷ ids) = flush_pages (flush_one p (find page_id p.cache)) ids

unfoldable pub flush : Pager → Option Error × Pager
unfolding flush_pages
flush p =
    if p.closed
    then (some database_closed, p)
    else (none, record (flush_pages p p.dirty) { dirty = [] })

abbrev synced : Option Error × Pager → Option Error × Pager
synced (some e, p) = (some e, p)
synced (none, p) = (none, write_metadata p)

unfoldable pub sync : Pager → Option Error × Pager
unfolding flush write_metadata
sync p = synced (flush p)

unfoldable pub set_root_page_id : Pager → ℕ → Pager
unfolding write_metadata
set_root_page_id p page_id =
    write_metadata (record p { metadata = record p.metadata { root_page_id = page_id } })

abbrev write_dirty : Pager → Option ℕ → Pager
write_dirty p none = p
write_dirty p (some address) = write_page p (page_at p address)

unfoldable pub write_pages : Pager → List ℕ → Pager
unfolding find write_page
write_pages p [] = p
write_pages p (page_id ∷ ids) = write_pages (write_dirty p (find page_id p.cache)) ids

unfoldable pub close : Pager → Pager
unfolding write_pages write_metadata
close p = if p.closed then p else record (write_metadata (write_pages p p.dirty)) { closed = true }
