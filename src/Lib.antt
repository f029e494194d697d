-- ===== src/Lib.antt =====
-- phono-junk: the core of a library for audio-disc images. A disc image's track layout becomes a
-- table of contents (TOC); the TOC gives the disc IDs under which databases know the disc; the
-- samples of each track give two AccurateRip checksums; these are compared with the entries of a
-- dBAR file that AccurateRip serves for the disc; and what several databases say of the disc is
-- merged into one description. A scan finds the images of a library and has their discs identified,
-- a session runs such work as background jobs, users override single fields of the catalog, and an
-- extraction names its files after it.
--
-- Common: Boolean tests, lists measured by native numbers, machine words, decimal and hexadecimal
--   text, `Outcome`, the result of a Rust function that may return `Err` or panic, and `Action`, such
--   a function on a state.
-- Toc: phono-junk-core/src/lib.rs. `Toc` and `TrackSpan` are the structs, and the functions the
--   methods of `Toc`. Toc.Layout is phono-junk-toc/src/toc_from_layout.rs, whose one function
--   `layout_to_toc` is cut into `split_runs`, `leadout_of` and `toc_of_runs`; Toc.DiscId is
--   phono-junk-toc/src/discid.rs and `compute_disc_ids` of phono-junk-toc/src/lib.rs.
-- AccurateRip: phono-junk-accuraterip/src. Crc is crc.rs, Dbar is dbar.rs, Error is error.rs, and
--   Verify is verify.rs; a loop of the source is a function `…_loop` on the elements left.
--   Offset is offset.rs: the prefix sums, Offset.Search `evaluate_candidate`, and Offset.Choice
--   `verify_with_offsets`, which searches at most 2939 shifts to either side. Client is url.rs and
--   client.rs.
-- Identify: phono-junk-identify/src. The records are those of lib.rs; Consensus is consensus.rs:
--   Vote is `merge_opt`, Merge and Groups are the parts of `merge` and `merge_tracks`, Disc the wholes.
--   A step that pushes onto the list of disagreements passes that list along (`Recorded`).
--   Scoring is `score_and_resolve` of pipeline.rs with the helpers it calls, Learned its functions on
--   the identifiers of queries and results, and Staged its `identify_staged`, whose loop over the
--   stages passes its variables along in the record `Staged`.
-- Catalog: phono-junk-catalog/src/types.rs and the lifecycle states of phono-junk-core/src/lib.rs.
--   Stored holds the texts under which the database keeps enumerations, Cover `pick_front_cover`.
-- Db: phono-junk-db/src/overrides.rs. Overrides parses a sub-path such as `track[6]`, whose names and
--   digits are read from character codes; Overrides.Fields has the flat appliers, in which a field's
--   name becomes a constructor (`album_field`) and the constructor an update (`set_album`), and
--   Overrides.Apply the choice of the target. A `&mut` argument is passed in and returned.
-- Scan: phono-junk-lib/src/scan.rs. `Backend` is the record of what a scan calls; Scan.Identify has
--   `identify_one` as a computation on the state of the catalog, Scan.Walk the loop over the entries
--   of a directory, cut into one function for each nested `match`, which returns the events that the
--   source passes to a callback.
-- Session: phono-junk-lib/src/session.rs. A job is a function that returns its events, and whether its
--   thread lives on. Session.Supervisor is the queue with its worker, Session.Steps what clients and
--   the worker do with it, in any order. The flag `cancel` is read through parameters that say what
--   each load sees, so that a batch may be cancelled at any point.
-- Extract: phono-junk-extract/src/paths.rs. A text is its code points and a path a list of components.
-- Examples: concrete inputs.
--
-- Integers are native numbers. Arithmetic that the source leaves unchecked panics on overflow
-- (`checked_add`, `checked_sub`), as in a build with overflow checks; `wrapping_…` and casts write
-- the wrap-around out. Fuel: `digit_sum` runs its loop at most `n` times, each round divides by ten;
-- the dBAR parser runs its loop at most once for each byte and once more, each round consumes a
-- header; `decimal` of `n` runs at most `n + 1` rounds, each divides by ten.
--
-- Parameters: the layout entries of junk-libs-disc, its constant LEAD_IN_FRAMES, the SHA-1 digest
-- with its base64 text, sector read errors, the conversion to JSON values, the order in which
-- a `HashMap` is iterated, the parsing of URLs and the HTTP request, and each provider's lookup.
-- What a scan and the jobs call stands in the records `Backend` and `Context`: statements of the
-- database, readers of disc images, `ingest_metadata`, and the identification, verification, export
-- and caching of one item. The text that an error is shown as is a constructor or a parameter.
-- Not modelled: the SQL of the database, `LibrarySession`, which opens databases and passes calls on,
-- HTTP and rate limits, the decoding of what the metadata providers answer, tags and encoding, the
-- command line and the graphical interface; they are I/O, SQL or calls of other crates.
pub mod Common
pub mod Toc
pub mod AccurateRip
pub mod Identify
pub mod Catalog
pub mod Db
pub mod Scan
pub mod Session
pub mod Extract
pub mod Examples
