-- ===== src/Ipc/Shmem/Pages.antt =====
-- tyndall/ipc/shmem.h: the pages that `init` maps for an object and `uninit` unmaps, on x86_64, where a
-- page has 4096 bytes and CACHELINE_BYTES is 64.
use tyndall.Base.{
  ℕ, ◌+◌, ◌-◌, ◌/◌, ◌%◌, ◌≤◌, ◌<◌, Bool, true, false, ◌&&◌, ◌||◌, not, ltb, leb, Option, none, some,
  ◌≡◌, ◌↔◌, ◌⊎◌, arith,
}

abbrev pub page_size : ℕ
page_size = 4096

abbrev pub cache_line : ℕ
cache_line = 64

-- The number of pages that so many bytes from the start of a page lie in.
abbrev pub pages : ℕ → ℕ
pages size = (size + (page_size - 1)) / page_size

abbrev pub in_range : (start size page : ℕ) → Bool
in_range start size page = leb start page && ltb page (start + pages size)

-- What POSIX documents of mmap and munmap: they map and unmap whole pages, those that hold any byte of
-- the range. An address is the number of its page.
abbrev pub mmap_pages : (start size : ℕ) → (ℕ → Bool) → ℕ → Bool
mmap_pages start size mapped page = mapped page || in_range start size page

abbrev pub munmap_pages : (start size : ℕ) → (ℕ → Bool) → ℕ → Bool
munmap_pages start size mapped page = mapped page && not (in_range start size page)

unfoldable pub shmem_unmap : (addr size : ℕ) → (ℕ → Bool) → ℕ → Bool
shmem_unmap addr size mapped = munmap_pages addr size mapped

-- `size` in `init`, of the data structure and the tailer.
unfoldable pub init_size : (sizeof_data sizeof_tailer : ℕ) → ℕ
init_size sizeof_data sizeof_tailer = sizeof_data + sizeof_tailer

-- `init` where mmap gives the page `addr`.
unfoldable pub init_pages : (sizeof_data sizeof_tailer addr : ℕ) → (ℕ → Bool) → ℕ → Bool
init_pages sizeof_data sizeof_tailer addr mapped =
    mmap_pages addr (init_size sizeof_data sizeof_tailer) mapped

-- `uninit` of an object with such a `buf`; NULL and (void*)-1 are none.
unfoldable pub uninit_pages : (sizeof_data : ℕ) → Option ℕ → (ℕ → Bool) → ℕ → Bool
uninit_pages sizeof_data none mapped = mapped
uninit_pages sizeof_data (some addr) mapped = shmem_unmap addr sizeof_data mapped

-- `init` on pages that were free and then `uninit` leave all pages as they were, but for one: if the
-- size of the data structure is a multiple of a page, the page of the tailer stays mapped. The data
-- structure has the size of whole cache lines, and the tailer is smaller than one.
pub uninit_pages-init_pages :
    (sizeof_data sizeof_tailer addr page : ℕ) (mapped : ℕ → Bool)
    → sizeof_data % cache_line ≡ 0
    → 0 < sizeof_tailer
    → sizeof_tailer < cache_line
    → ((p : ℕ) → addr ≤ p → p < addr + pages (sizeof_data + sizeof_tailer) → mapped p ≡ false)
    → (uninit_pages sizeof_data (some addr) (init_pages sizeof_data sizeof_tailer addr mapped) page
        ≡ true)
      ↔ ((mapped page ≡ true)
          ⊎ ((sizeof_data % page_size ≡ 0) × (page ≡ addr + sizeof_data / page_size)))
unfolding uninit_pages init_pages init_size shmem_unmap
uninit_pages-init_pages sizeof_data sizeof_tailer addr page mapped aligned positive small free =
    let free_here = free page in (λ h. ground arith, λ h. ground arith)
