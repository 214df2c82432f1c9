-- ===== src/Tests.antt =====
-- Instances of the results at concrete values.
mod Data
mod Guard
mod Arms
mod Requests
mod Cluster
mod Nodes
mod Pods
mod Lab
mod Watches
mod Objects
mod Training
mod Traces
