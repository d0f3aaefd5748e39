-- ===== src/Docker.antt =====
-- computing/docker/docker_service.go: containers by the docker command, images by docker's API.
pub mod Dockerfile
pub mod Containers
pub mod Images
pub mod Build
