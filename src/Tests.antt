-- ===== src/Tests.antt =====
-- Runs of the development on concrete inputs. The libraries that are parameters are replaced by
-- small functions that satisfy what is asked of them.
mod Libraries
mod Strings
mod Selecting
mod Administering
mod Answering
mod Outcalls
mod Transforming
mod Platforms
mod Numbering
mod Converting
mod Multiples
mod Calling
mod Logging
mod Alloying
mod Monitoring
