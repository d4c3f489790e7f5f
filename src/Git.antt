-- ===== src/Git.antt =====
-- lib/bup/git.py: the parts of git that bup reads and writes itself.
pub mod Names
pub mod PackIdx
pub mod PackIdxList
pub mod PackObj
pub mod PackWriter
pub mod Trees
mod Tests
